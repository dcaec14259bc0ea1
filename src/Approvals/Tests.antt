-- ===== src/Approvals/Tests.antt =====
-- The approvals at concrete inputs: a request, decisions on it, its cancellation and its expiry.
use latticeag_gateway.Base.{List, String, true, false, ◌≡◌, refl, Option, none, some, [], ◌∷◌, ◌↔◌}
use latticeag_gateway.Base.Int.{pos}
use latticeag_gateway.Base.Table.{get, put}
use latticeag_gateway.Protocol.Errors.{revision_conflict, at}
use latticeag_gateway.Protocol.Values.{Value, null, int, str, obj, end, field}
use latticeag_gateway.Protocol.Lexical.{is_id, is_hash64, is_count, is_ascii}
use latticeag_gateway.Exec.{ok, err}
use latticeag_gateway.Approvals
use latticeag_gateway.Approvals.{
  NativeRef, ObjectRef, RequestParams, DecideParams, ApprovalRecord, ApprovalCaller, Store, agent,
  local_operator, approved, pending, get_live, expire_if_due, assert_pending, request, decide,
  cancel, validate_native_ref, validate_object_ref, requester_of, who_of,
}
use latticeag_gateway.Approvals.Decide.{first_commit_wins}
use latticeag_gateway.Approvals.Cancel.{CanCancel, cancelled_row, cancel_exact}
use latticeag_gateway.Approvals.Lifecycle.{RowLater}
use latticeag_gateway.Approvals.Calls.{requests, decides, cancels, run, calls_keep_bindings}

abbrev hash : String
hash = "00000000000000000000000000000000000000000000000000000000000000ab"

abbrev action : Value
action = obj (
    field "profile" (str "p") (
      field "namespace" (str "n") (
        field "object_id" (str "o") (
          field "commitment" null (field "raw_sha256" (str hash) (field "bytes" (str "12") end))))))

abbrev native : Value
native =
    obj
      (field "digest" (str hash) (field "bytes" (str "12") (field "media" (str "text/plain") end)))

abbrev params : RequestParams
params = record { action = action; target = str "t"; expires_ms = int (pos 1000); native = native }

abbrev commit : NativeRef → String
commit r = r.raw_sha256

abbrev requester : Option ApprovalCaller
requester = some (record { id = some "agent1"; role = some agent; reviewer = false })

abbrev reviewer : Option ApprovalCaller
reviewer = some (record { id = some "bob"; role = some local_operator; reviewer = true })

abbrev row : ApprovalRecord
row = record {
  approval = "a1";
  revision = 1;
  state = pending;
  action = record {
    profile = "p";
    namespace = "n";
    object_id = "o";
    commitment = none;
    raw_sha256 = hash;
    bytes = "12";
  };
  action_hash = hash;
  target = "t";
  expires_ms = pos 1000;
  native = record { digest = hash; bytes = "12"; media = "text/plain" };
  native_status = "NOT_DISPATCHED";
  authority = "NONE";
  requester = "agent1";
  created_ms = 5;
  decided_ms = none;
  decision = none;
  reason = none;
  reviewer = none;
}

abbrev rows : Store
rows = ("a1", row) ∷ []

abbrev approves : DecideParams
approves = record {
  approval = "a1";
  expected_revision = 1;
  action = action;
  decision = str "approve";
  reason = str "fine";
}

abbrev denies : DecideParams
denies = record approves { decision = str "deny" }

abbrev approved_row : ApprovalRecord
approved_row = record row {
  revision = 2;
  state = approved;
  decision = some Approvals.approve;
  reason = some "fine";
  decided_ms = some 10;
  reviewer = some "bob";
}

first_commit_wins_example :
    decide commit 11 denies reviewer (("a1", approved_row) ∷ [])
    ≡ (err (at revision_conflict "expected_revision"), ("a1", approved_row) ∷ [])
unfolding decide get_live assert_pending expire_if_due is_id validate_native_ref is_hash64 is_count
    is_ascii put get
first_commit_wins_example =
    first_commit_wins commit 10 approves reviewer rows approved_row (("a1", approved_row) ∷ [])
      (refl, refl, tt) refl 11 denies reviewer refl refl refl

cancel_exact_example : CanCancel 10 "a1" 1 (who_of requester) row ↔ (
    cancel 10 "a1" 1 requester rows ≡ (ok (cancelled_row row), put "a1" (cancelled_row row) rows))
unfolding get
cancel_exact_example = cancel_exact 10 "a1" 1 requester rows row refl

abbrev own_reviewer : Option ApprovalCaller
own_reviewer = some (record { id = some "agent1"; role = some agent; reviewer = true })

calls_keep_bindings_example : RowLater (get "a1" rows) (
    get "a1" (
      run commit
        (requests 6 "a2" params requester
          ∷ decides 10 approves reviewer
          ∷ cancels 11 "a1" 1 requester
          ∷ [])
        rows))
unfolding get
calls_keep_bindings_example =
    calls_keep_bindings commit
      (requests 6 "a2" params requester
        ∷ decides 10 approves reviewer
        ∷ cancels 11 "a1" 1 requester
        ∷ [])
      rows (refl, refl, tt) (refl, (tt, (tt, tt))) "a1"

-- Two pages of one row each.
abbrev two_rows : List ApprovalRecord
two_rows = row ∷ record row { approval = "a2" } ∷ []
