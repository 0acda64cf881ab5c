-- ===== src/ReplicatorTypes/Events.antt =====
-- `WaitForDocumentEventEntry`: when an event is one that was asked for.
use couchbase_lite_tests.Prelude.{
  Bool, true, false, ◌&&◌, ◌||◌, Option, none, some, String, ◌==◌, string_eq,
}
use couchbase_lite_tests.Json.{Value, null}
use couchbase_lite_tests.Json.Equivalent.{scalar_eq}
use couchbase_lite_tests.Errors.{ErrorResponseBody}
use couchbase_lite_tests.ReplicatorTypes.{ReplicatorType, push_and_pull, type_beq}
use couchbase_lite_tests.ReplicatorTypes.Flags.{ReplicatorDocumentFlags, flags_beq}
use couchbase_lite_tests.ReplicatorTypes.Entries.{ReplicatorDocumentEntry, direction}

pub record WaitForDocumentEventEntry : Type 0 where
  pub collection : String
  pub id : String
  pub direction : ReplicatorType
  pub flags : Option ReplicatorDocumentFlags
  pub err_domain : Value
  pub err_code : Value

abbrev pub is_both : ReplicatorType → Bool
is_both push_and_pull = true
is_both _ = false

-- The test on the directions, where `PUSH_AND_PULL` on either side stands for any.
abbrev pub directions_agree : ReplicatorType → ReplicatorType → Bool
directions_agree a b = type_beq a b || is_both a || is_both b

-- The test on the flags, where `None` on either side stands for any.
abbrev pub flags_agree : Option ReplicatorDocumentFlags → Option ReplicatorDocumentFlags → Bool
flags_agree none _ = true
flags_agree (some f) none = true
flags_agree (some f) (some g) = flags_beq f g

-- `__eq__`. The domain and the code of an error are scalars (a text, a number or `None`).
unfoldable pub event_eq : WaitForDocumentEventEntry → WaitForDocumentEventEntry → Bool
event_eq a b =
    (a.collection == b.collection && a.id == b.id)
    && (scalar_eq a.err_domain b.err_domain
        && (scalar_eq a.err_code b.err_code
            && (directions_agree a.direction b.direction && flags_agree a.flags b.flags)))

abbrev error_part : (ErrorResponseBody → Value) → Option ErrorResponseBody → Value
error_part f none = null
error_part f (some e) = f e

-- The entry that the waiting loops build from an event.
unfoldable pub entry_of : ReplicatorDocumentEntry → WaitForDocumentEventEntry
entry_of event = record {
  collection = event.collection;
  id = event.document_id;
  direction = direction event;
  flags = some event.flags;
  err_domain = error_part (λ e. e.domain) event.error;
  err_code = error_part (λ e. e.code) event.error;
}

-- The entry that `wait_for_any_doc_event` builds: it leaves the error out.
unfoldable pub entry_without_error : ReplicatorDocumentEntry → WaitForDocumentEventEntry
entry_without_error event = record {
  collection = event.collection;
  id = event.document_id;
  direction = direction event;
  flags = some event.flags;
  err_domain = null;
  err_code = null;
}
