-- ===== src/Requests.antt =====
-- client/src/cbltest/request_types.py: one update of a document in a request to a test server.
--
-- The three properties that a constructor call may leave out are lists or dictionaries of JSON values.
use couchbase_lite_tests.Prelude.{
  Bool, true, false, not, ◌&&◌, ◌||◌, ◌≡◌, refl, ◌∙◌, Option, none, some, List, [], ◌∷◌, ◌++◌,
  String, ◌==◌, string_eq, if◌then◌else◌, arith,
}
use couchbase_lite_tests.Prelude.Dict.{Dict, has_key}
use couchbase_lite_tests.Json.{Value, str, arr, obj, of_list, of_dict}
use couchbase_lite_tests.ReplicatorTypes.{strings}

pub data DatabaseUpdateType : Type 0 where
  update delete purge : DatabaseUpdateType

-- `str(type)`
abbrev pub update_text : DatabaseUpdateType → String
update_text update = "UPDATE"
update_text delete = "DELETE"
update_text purge = "PURGE"

abbrev pub is_update : DatabaseUpdateType → Bool
is_update update = true
is_update _ = false

pub record DatabaseUpdateEntry : Type 0 where
  pub type : DatabaseUpdateType
  pub collection : String
  pub document_id : String
  pub updated_properties : Option (List Value)
  pub removed_properties : Option (List String)
  pub new_blobs : Option (Dict Value)

abbrev nonempty {ℓ} : {A : Type ℓ} → List A → Bool
nonempty [] = false
nonempty (x ∷ xs) = true

-- `x is not None and len(x) > 0`
abbrev pub has_some {ℓ} : {A : Type ℓ} → Option (List A) → Bool
has_some none = false
has_some (some xs) = nonempty xs

abbrev part_is_valid : Option (List Value) → Option (List String) → Option (Dict Value) → Bool
part_is_valid (some updated) removed blobs = nonempty updated
part_is_valid none removed (some blobs) = nonempty blobs
part_is_valid none removed none = has_some removed

unfoldable pub is_valid : DatabaseUpdateEntry → Bool
is_valid e =
    if not (is_update e.type)
    then true
    else part_is_valid e.updated_properties e.removed_properties e.new_blobs

-- An entry that is there if the option is a list that is not empty.
abbrev entry_if_some {ℓ} : {A : Type ℓ} → String → (List A → Value) → Option (List A) → Dict Value
entry_if_some key f none = []
entry_if_some key f (some []) = []
entry_if_some key f (some (x ∷ xs)) = (key, f (x ∷ xs)) ∷ []

abbrev pub raw_entries : DatabaseUpdateEntry → Dict Value
raw_entries e =
    ("type", str (update_text e.type))
    ∷ ("collection", str e.collection)
    ∷ ("documentID", str e.document_id)
    ∷ []

abbrev pub part_entries : DatabaseUpdateEntry → Dict Value
part_entries e =
    entry_if_some "updatedProperties" (λ l. arr (of_list l)) e.updated_properties
    ++ (entry_if_some "removedProperties" strings e.removed_properties
        ++ entry_if_some "updatedBlobs" (λ d. obj (of_dict d)) e.new_blobs)

-- `to_json`; an invalid entry has no JSON.
unfoldable pub update_json : DatabaseUpdateEntry → Option (Dict Value)
unfolding is_valid
update_json e =
    if not (is_valid e)
    then none
    else if not (is_update e.type)
    then some (raw_entries e)
    else some (raw_entries e ++ part_entries e)

has_key-append :
    (key : String) (d e : Dict Value) → has_key key (d ++ e) ≡ (has_key key d || has_key key e)
unfolding has_key
has_key-append key [] e = refl
has_key-append key ((j, v) ∷ d) e = ground (arith, has_key-append key d e)

has_key-entry {ℓ} :
    {A : Type ℓ} (key j : String) (f : List A → Value) (o : Option (List A))
    → has_key key (entry_if_some j f o) ≡ (j == key && has_some o)
unfolding has_key
has_key-entry key j f none = ground arith
has_key-entry key j f (some []) = ground arith
has_key-entry key j f (some (x ∷ xs)) = ground arith

part_is_valid-some :
    (updated : Option (List Value)) (removed : Option (List String)) (blobs : Option (Dict Value))
    → part_is_valid updated removed blobs ≡ true
    → (has_some updated || has_some removed || has_some blobs) ≡ true
part_is_valid-some (some updated) removed blobs h = ground arith
part_is_valid-some none removed (some blobs) h = ground arith
part_is_valid-some none removed none h = ground arith

has_key-parts :
    (e : DatabaseUpdateEntry) (key : String)
    → has_key key (part_entries e) ≡ (
        ("updatedProperties" == key && has_some e.updated_properties)
        || ("removedProperties" == key && has_some e.removed_properties)
        || ("updatedBlobs" == key && has_some e.new_blobs))
has_key-parts e key =
    rw
      (
        has_key-append key,
        has_key-append key,
        has_key-entry key "updatedProperties",
        has_key-entry key "removedProperties",
        has_key-entry key "updatedBlobs",
      )
      (ground arith)

-- The JSON of an update names at least one of the three kinds of changes, and exactly those that the
-- entry has.
pub update_json-changes :
    (e : DatabaseUpdateEntry) (json : Dict Value)
    → is_update e.type ≡ true
    → update_json e ≡ some json
    → (has_key "updatedProperties" json ≡ has_some e.updated_properties)
      × (has_key "removedProperties" json ≡ has_some e.removed_properties)
      × (has_key "updatedBlobs" json ≡ has_some e.new_blobs)
      × ((has_some e.updated_properties || has_some e.removed_properties || has_some e.new_blobs)
          ≡ true)
unfolding update_json has_key
update_json-changes e json u h =
    let full : raw_entries e ++ part_entries e ≡ json = ground arith in
    let valid : part_is_valid e.updated_properties e.removed_properties e.new_blobs ≡ true =
      ground arith in
    rw (← full) (
      has_key-parts e "updatedProperties" ∙ ground arith,
      has_key-parts e "removedProperties" ∙ ground arith,
      has_key-parts e "updatedBlobs" ∙ ground arith,
      part_is_valid-some e.updated_properties e.removed_properties e.new_blobs valid,
    )
