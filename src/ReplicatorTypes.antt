-- ===== src/ReplicatorTypes.antt =====
-- client/src/cbltest/api/replicator_types.py: what a replication is configured with.
pub mod Flags
pub mod Entries
pub mod Events
use couchbase_lite_tests.Prelude.{
  ◌≡◌, refl, Bool, true, false, Option, none, some, List, [], ◌∷◌, String, ◌==◌, string_eq, map,
  ◌++◌,
}
use couchbase_lite_tests.Prelude.Dict.{Dict}
use couchbase_lite_tests.Prelude.Result.{Result, ok, err, type_error}
use couchbase_lite_tests.Json.{Value, str, arr, obj, of_list, of_dict}

abbrev pub strings : List String → Value
strings l = arr (of_list (map str l))

-- An entry that is there if the option is set.
abbrev pub entry_if {ℓ} : {A : Type ℓ} → String → (A → Value) → Option A → Dict Value
entry_if key f none = []
entry_if key f (some a) = (key, f a) ∷ []

-- `ReplicatorFilter` and `ReplicatorConflictResolver`, which differ in nothing.
pub record ReplicatorFilter : Type 0 where
  pub name : String
  pub parameters : Option (Dict Value)

abbrev pub ReplicatorConflictResolver : Type 0
ReplicatorConflictResolver = ReplicatorFilter

unfoldable pub filter_json : ReplicatorFilter → Value
filter_json f =
    obj (of_dict (("name", str f.name) ∷ entry_if "params" (λ p. obj (of_dict p)) f.parameters))

pub record ReplicatorCollectionEntry : Type 0 where
  pub names : List String
  pub channels : Option (List String)
  pub document_ids : Option (List String)
  pub push_filter : Option ReplicatorFilter
  pub pull_filter : Option ReplicatorFilter
  pub conflict_resolver : Option ReplicatorConflictResolver

-- `_assert_not_empty` of client/src/cbltest/assertions.py
unfoldable pub assert_not_empty {ℓ} : {A : Type ℓ} → List A → Result (List A)
assert_not_empty [] = err type_error
assert_not_empty (x ∷ xs) = ok (x ∷ xs)

abbrev collection_names : Option (List String) → Result (List String)
collection_names none = ok ("_default._default" ∷ [])
collection_names (some names) = assert_not_empty names

-- The constructor.
unfoldable pub collection_entry :
    Option (List String)
    → (channels document_ids : Option (List String))
    → (push_filter pull_filter : Option ReplicatorFilter) → Option ReplicatorConflictResolver
    → Result ReplicatorCollectionEntry
unfolding assert_not_empty
collection_entry names channels document_ids push_filter pull_filter conflict_resolver =
    elim (collection_names names) [
      | err e ↦ err e
      | ok l ↦ ok (record {
        names = l;
        channels = channels;
        document_ids = document_ids;
        push_filter = push_filter;
        pull_filter = pull_filter;
        conflict_resolver = conflict_resolver;
      })
    ]

unfoldable pub collection_json : ReplicatorCollectionEntry → Value
unfolding filter_json
collection_json e = obj (
    of_dict (
      ("names", strings e.names)
      ∷ (entry_if "channels" strings e.channels
          ++ (entry_if "documentIDs" strings e.document_ids
              ++ (entry_if "pushFilter" filter_json e.push_filter
                  ++ (entry_if "pullFilter" filter_json e.pull_filter
                      ++ entry_if "conflictResolver" filter_json e.conflict_resolver))))))

pub data ReplicatorType : Type 0 where
  push pull push_and_pull : ReplicatorType

-- `str(type)`
abbrev pub type_text : ReplicatorType → String
type_text push = "push"
type_text pull = "pull"
type_text push_and_pull = "pushAndPull"

abbrev pub type_beq : ReplicatorType → ReplicatorType → Bool
type_beq push push = true
type_beq pull pull = true
type_beq push_and_pull push_and_pull = true
type_beq _ _ = false

-- `ReplicatorBasicAuthenticator` and `ReplicatorSessionAuthenticator`
pub data ReplicatorAuthenticator : Type 0 where
  basic : (username password : String) → ReplicatorAuthenticator
  session : (session_id cookie_name : String) → ReplicatorAuthenticator

unfoldable pub authenticator_json : ReplicatorAuthenticator → Value
authenticator_json (basic username password) =
    obj (
      of_dict
        (("type", str "BASIC") ∷ ("username", str username) ∷ ("password", str password) ∷ []))
authenticator_json (session session_id cookie_name) = obj (
    of_dict (
      ("type", str "SESSION")
      ∷ ("sessionID", str session_id)
      ∷ ("cookieName", str cookie_name)
      ∷ []))

pub data ReplicatorActivityLevel : Type 0 where
  stopped offline connecting idle busy : ReplicatorActivityLevel

abbrev pub activity_beq : ReplicatorActivityLevel → ReplicatorActivityLevel → Bool
activity_beq stopped stopped = true
activity_beq offline offline = true
activity_beq connecting connecting = true
activity_beq idle idle = true
activity_beq busy busy = true
activity_beq _ _ = false

pub activity_beq-eq : (a b : ReplicatorActivityLevel) → activity_beq a b ≡ true → a ≡ b
activity_beq-eq stopped stopped h = refl
activity_beq-eq offline offline h = refl
activity_beq-eq connecting connecting h = refl
activity_beq-eq idle idle h = refl
activity_beq-eq busy busy h = refl
activity_beq-eq _ _ h = cc
