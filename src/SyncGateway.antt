-- ===== src/SyncGateway.antt =====
-- client/src/cbltest/api/syncgateway.py: the configuration of a replication between two Sync Gateways,
-- and a document that Sync Gateway returns. The calls of its HTTP interface are not modelled.
use couchbase_lite_tests.Prelude.{
  Bool, true, false, not, ◌||◌, ◌≡◌, refl, sym, ◌∙◌, Option, none, some, List, [], ◌∷◌, ◌++◌,
  String, ◌==◌, string_eq, eq_iff, if◌then◌else◌, arith, contains,
}
use couchbase_lite_tests.Prelude.Dict.{
  Dict, lookup, has_key, insert, erase, lookup_of_has_key, lookup-insert, lookup-erase,
}
use couchbase_lite_tests.Prelude.Result.{
  Result, ok, err, value_error, key_error, assertion_error, ◌>>=◌, ◌>>◌, guard,
}
use couchbase_lite_tests.Json.{Value, null, bool, str}
use couchbase_lite_tests.ReplicatorTypes.{strings, entry_if}
use couchbase_lite_tests.ReplicatorTypes.Entries.{get_or_null}

-- The remote address is the URL, a slash and the name of the database.
pub record IsgrPayload : Type 0 where
  pub replication_id : String
  pub remote : String
  pub direction : String
  pub continuous : Bool
  pub remote_username : Option String
  pub remote_password : Option String
  pub collections_local : Option (List String)
  pub collections_remote : Option (List String)

-- The check of the constructor.
unfoldable pub isgr_payload : IsgrPayload → Result IsgrPayload
isgr_payload payload = do
  guard (contains ("push" ∷ "pull" ∷ "pushAndPull" ∷ []) payload.direction) value_error
  ok payload

abbrev is_set : Option (List String) → Bool
is_set none = false
is_set (some l) = true

abbrev enabled : Bool → Dict Value
enabled true = ("collections_enabled", bool true) ∷ []
enabled false = []

unfoldable pub isgr_json : IsgrPayload → Dict Value
isgr_json p =
    ("replication_id", str p.replication_id)
    ∷ ("remote", str p.remote)
    ∷ ("direction", str p.direction)
    ∷ ("continuous", bool p.continuous)
    ∷ (entry_if "remote_username" str p.remote_username
        ++ (entry_if "remote_password" str p.remote_password
            ++ (enabled (is_set p.collections_local || is_set p.collections_remote)
                ++ (entry_if "collections_local" strings p.collections_local
                    ++ entry_if "collections_remote" strings p.collections_remote))))

-- The values are stored as they come; a revision that is not there is `None`.
pub record RemoteDocument : Type 0 where
  pub id : Value
  pub revid : Value
  pub cv : Value
  pub body : Dict Value

abbrev required : Option Value → Result Value
required none = err key_error
required (some v) = ok v

-- `del d[key]`
abbrev delete_key : String → Dict Value → Result (Dict Value)
delete_key key d = if has_key key d then ok (erase key d) else err key_error

abbrev without_cv : Value → Dict Value → Dict Value
without_cv null d = d
without_cv v d = erase "_cv" d

unfoldable pub remote_document : Dict Value → Result RemoteDocument
unfolding lookup has_key erase get_or_null
remote_document body = do
  guard (not (has_key "error" body)) value_error
  id ← required (lookup "_id" body)
  without_id ← delete_key "_id" body
  without_rev ← delete_key "_rev" without_id
  ok (record {
    id = id;
    revid = get_or_null "_rev" body;
    cv = get_or_null "_cv" body;
    body = without_cv (get_or_null "_cv" body) without_rev;
  })

-- `revision`: the CV, or else the revision ID, which is asserted to be there.
abbrev or_assert : Value → Result Value
or_assert null = err assertion_error
or_assert v = ok v

unfoldable pub revision : RemoteDocument → Result Value
revision d = elim d.cv [ null ↦ or_assert d.revid | v ↦ ok v ]

unfoldable pub remote_json : RemoteDocument → Dict Value
unfolding insert
remote_json d = insert "_cv" d.cv (insert "_rev" d.revid (insert "_id" d.id d.body))

delete_key-ok :
    (key : String) (d e : Dict Value)
    → delete_key key d ≡ ok e
    → (erase key d ≡ e) × (has_key key d ≡ true)
delete_key-ok key d e h = ground arith

lookup-without_cv :
    (key : String) (v : Value) (d : Dict Value)
    → ("_cv" == key) ≡ false
    → lookup key (without_cv v d) ≡ lookup key d
lookup-without_cv key null d other = refl
lookup-without_cv key _ d other = ground (arith, lookup-erase key "_cv" d)

-- The parts of a document that was read.
remote_document-parts :
    (body : Dict Value) (d : RemoteDocument)
    → remote_document body ≡ ok d
    → (lookup "_id" body ≡ some d.id)
      × (has_key "_rev" (erase "_id" body) ≡ true)
      × (d.revid ≡ get_or_null "_rev" body)
      × (d.cv ≡ get_or_null "_cv" body)
      × (d.body ≡ without_cv (get_or_null "_cv" body) (erase "_rev" (erase "_id" body)))
unfolding remote_document
remote_document-parts body d h = ground arith

revision_shown :
    (body : Dict Value)
    → has_key "_rev" (erase "_id" body) ≡ true
    → lookup "_rev" body ≡ some (get_or_null "_rev" body)
unfolding get_or_null
revision_shown body h =
    let (v, found) = lookup_of_has_key "_rev" (erase "_id" body) h in
    let there : lookup "_rev" body ≡ some v = sym (lookup-erase "_rev" "_id" body) ∙ found in
    ground (arith, there)

-- What was read from a body is written with the same entries, but for the CV: where the body has none,
-- `None` is written.
pub remote_json-remote_document :
    (body : Dict Value) (d : RemoteDocument) (key : String)
    → remote_document body ≡ ok d
    → lookup key (remote_json d)
      ≡ (if "_cv" == key then some (get_or_null "_cv" body) else lookup key body)
unfolding remote_json
remote_json-remote_document body d key h =
    let (id, has_rev, revid, cv, rest) = remote_document-parts body d h in
    let body_left = erase "_rev" (erase "_id" body) in
    let shown = revision_shown body has_rev in
    ground (
      arith,
      lookup-insert key "_cv" d.cv (insert "_rev" d.revid (insert "_id" d.id d.body)),
      lookup-insert key "_rev" d.revid (insert "_id" d.id d.body),
      lookup-insert key "_id" d.id d.body,
      lookup-without_cv key (get_or_null "_cv" body) body_left,
      lookup-erase key "_rev" (erase "_id" body),
      lookup-erase key "_id" body,
      eq_iff "_cv" key,
      eq_iff "_rev" key,
      eq_iff "_id" key,
      shown,
    )
