-- ===== src/Approvals.antt =====
-- packages/core/src/v2/approvals: the approval lifecycle manager. Its store is the map of
-- createMemoryApprovalPorts; the clock is read once in a call and is an argument, as are the id that
-- the allocator mints and the commitment H(J(action)) of an action.
pub mod Refs
pub mod Decide
pub mod Cancel
pub mod Lifecycle
pub mod Calls
pub mod Reads
pub mod Tests
pub use Refs.{NativeRef, ObjectRef}
unfoldable pub use Refs.{validate_native_ref, validate_object_ref}
use Prim.Native.String.{compare}
use text.Mathlib.Text.{is_lt}
use latticeag_gateway.Base.{
  ℕ, zero, suc, ◌+◌, String, Bool, true, false, not, ◌&&◌, ◌||◌, Option, none, some, List, [], ◌∷◌,
  ◌=ₛ◌, ◌==◌, leb, ltb, if◌then◌else◌, length, take, filter, map,
}
use latticeag_gateway.Base.Int.{ℤ, pos, is_safe, reached}
use latticeag_gateway.Base.Sort.{sort}
use latticeag_gateway.Base.Page.{page_of}
use latticeag_gateway.Base.Table.{Table, get, put, values}
use latticeag_gateway.Protocol.Errors.{
  schema_invalid, not_found, forbidden, revision_conflict, approval_expired, state_transition,
  cursor_gone, RpcError, plain, at,
}
use latticeag_gateway.Protocol.Values.{Value, as_string, as_int}
use latticeag_gateway.Protocol.Lexical.{byte_length, is_id}
use latticeag_gateway.Exec.{
  Result, ok, err, or_err, Exec, pure, throw, lift, or_throw, gets, ◌>>=◌, ◌>>◌, throw_if, modify,
  when,
}

pub data ApprovalState : Type 0 where
  pending approved denied cancelled expired : ApprovalState

abbrev pub same_state : ApprovalState → ApprovalState → Bool
same_state pending pending = true
same_state approved approved = true
same_state denied denied = true
same_state cancelled cancelled = true
same_state expired expired = true
same_state _ _ = false

pub data Role : Type 0 where
  viewer agent operator local_operator bootstrap : Role

pub data Decision : Type 0 where
  approve deny : Decision

pub record ApprovalCaller : Type 0 where
  pub id : Option String
  pub role : Option Role
  pub reviewer : Bool

pub record ApprovalRecord : Type 0 where
  pub approval : String
  pub revision : ℕ
  pub state : ApprovalState
  pub action : NativeRef
  pub action_hash : String
  pub target : String
  pub expires_ms : ℤ
  pub native : ObjectRef
  pub native_status : String
  pub authority : String
  pub requester : String
  pub created_ms : ℕ
  pub decided_ms : Option ℕ
  pub decision : Option Decision
  pub reason : Option String
  pub reviewer : Option String

abbrev pub Store : Type 0
Store = Table ApprovalRecord

abbrev pub local_operator_id : String
local_operator_id = "operator1"

abbrev pub local_caller : ApprovalCaller
local_caller = record { id = some local_operator_id; role = some local_operator; reviewer = true }

-- `caller ?? LOCAL_OPERATOR`
abbrev pub who_of : Option ApprovalCaller → ApprovalCaller
who_of none = local_caller
who_of (some c) = c

abbrev pub is_pending : ApprovalRecord → Bool
is_pending r = same_state r.state pending

abbrev pub update : ApprovalRecord → Exec Store (Unit {0})
update r = modify (put r.approval r)

-- The row that expireIfDue leaves, `now >= expires_ms` included.
unfoldable pub expire_if_due : ℕ → ApprovalRecord → ApprovalRecord
expire_if_due now r =
    if is_pending r && reached now r.expires_ms then record r { state = expired } else r

unfoldable pub get_live : ℕ → String → Exec Store ApprovalRecord
unfolding expire_if_due
get_live now approval = do
  throw_if (not (is_id approval)) (at schema_invalid "approval")
  rows ← gets (λ s. s)
  r ← or_throw (get approval rows) (at not_found "approval")
  when (is_pending r && reached now r.expires_ms) (update (expire_if_due now r))
  pure (expire_if_due now r)

pub record RequestParams : Type 0 where
  pub action : Value
  pub target : Value
  pub expires_ms : Value
  pub native : Value

-- `typeof v !== "string" || v.length === 0 || byteLength > 1024`
abbrev target_of : Value → Option String
target_of v = elim (as_string v) [
  | none ↦ none
  | some s ↦ if s =ₛ "" || ltb 1024 (byte_length s) then none else some s
]

abbrev safe_int_of : Value → Option ℤ
safe_int_of v = elim (as_int v) [ none ↦ none | some n ↦ if is_safe n then some n else none ]

-- `caller?.id ?? LOCAL_OPERATOR.id`
abbrev requester_of : Option ApprovalCaller → String
requester_of none = local_operator_id
requester_of (some c) = elim c.id [ none ↦ local_operator_id | some id ↦ id ]

unfoldable pub request :
    (NativeRef → String)
    → ℕ
    → String
    → RequestParams
    → Option ApprovalCaller
    → Exec Store ApprovalRecord
request commitment now id p caller = do
  action ← lift (validate_native_ref p.action "action")
  native ← lift (validate_object_ref p.native "native")
  target ← or_throw (target_of p.target) (at schema_invalid "target")
  expires_ms ← or_throw (safe_int_of p.expires_ms) (at schema_invalid "expires_ms")
  let r : ApprovalRecord = record {
    approval = id;
    revision = 1;
    state = pending;
    action = action;
    action_hash = commitment action;
    target = target;
    expires_ms = expires_ms;
    native = native;
    native_status = "NOT_DISPATCHED";
    authority = "NONE";
    requester = requester_of caller;
    created_ms = now;
    decided_ms = none;
    decision = none;
    reason = none;
    reviewer = none;
  }
  update r
  pure r

abbrev pub is_reviewer : ApprovalCaller → Bool
is_reviewer c = c.reviewer || elim c.role [
  | none ↦ false
  | some r ↦ elim r [ operator ↦ true | local_operator ↦ true | _ ↦ false ]
]

pub record DecideParams : Type 0 where
  pub approval : String
  pub expected_revision : ℕ
  pub action : Value
  pub decision : Value
  pub reason : Value

abbrev decision_of : Value → Option Decision
decision_of v = elim (as_string v) [
  | none ↦ none
  | some s ↦ if s =ₛ "approve" then some approve else if s =ₛ "deny" then some deny else none
]

abbrev pub decided_state : Decision → ApprovalState
decided_state approve = approved
decided_state deny = denied

-- The guards on the state of a row that decide and cancel share.
unfoldable pub assert_pending : ApprovalRecord → Exec Store (Unit {0})
assert_pending r = do
  throw_if (same_state r.state expired) (at approval_expired "approval")
  throw_if (not (is_pending r)) (at state_transition "approval")

unfoldable pub decide :
    (NativeRef → String) → ℕ → DecideParams → Option ApprovalCaller → Exec Store ApprovalRecord
unfolding assert_pending
decide commitment now p caller = do
  let who = who_of caller
  throw_if (not (is_reviewer who)) (plain forbidden)
  r ← get_live now p.approval
  throw_if (not (p.expected_revision == r.revision)) (at revision_conflict "expected_revision")
  assert_pending r
  decision ← or_throw (decision_of p.decision) (at schema_invalid "decision")
  reason ← or_throw (as_string p.reason) (at schema_invalid "reason")
  action ← lift (validate_native_ref p.action "action")
  throw_if (not (commitment action =ₛ r.action_hash)) (at revision_conflict "action")
  let r' : ApprovalRecord = record r {
    revision = r.revision + 1;
    state = decided_state decision;
    decision = some decision;
    reason = some reason;
    decided_ms = some now;
    reviewer = who.id;
  }
  update r'
  pure r'

abbrev pub may_cancel : ApprovalCaller → Bool
may_cancel c = elim c.role [
  | none ↦ true
  | some r ↦ elim r [ viewer ↦ false | bootstrap ↦ false | _ ↦ true ]
]

abbrev pub is_requester : ApprovalCaller → ApprovalRecord → Bool
is_requester c r = elim c.id [ none ↦ false | some id ↦ id =ₛ r.requester ]

unfoldable pub cancel : ℕ → String → ℕ → Option ApprovalCaller → Exec Store ApprovalRecord
unfolding assert_pending
cancel now approval expected_revision caller = do
  let who = who_of caller
  throw_if (not (may_cancel who)) (plain forbidden)
  r ← get_live now approval
  throw_if (not (is_requester who r)) (at forbidden "approval")
  throw_if (not (expected_revision == r.revision)) (at revision_conflict "expected_revision")
  assert_pending r
  let r' : ApprovalRecord = record r { revision = r.revision + 1; state = cancelled }
  update r'
  pure r'

pub record ListParams : Type 0 where
  pub state : Option ApprovalState
  pub after : Option String
  pub limit : ℕ

pub record View : Type 0 where
  pub approval : String
  pub revision : ℕ
  pub state : ApprovalState
  pub action : NativeRef
  pub expires_ms : ℤ
  pub native_status : String

unfoldable pub view : ApprovalRecord → View
view r = record {
  approval = r.approval;
  revision = r.revision;
  state = r.state;
  action = r.action;
  expires_ms = r.expires_ms;
  native_status = r.native_status;
}

pub record Page : Type 0 where
  pub items : List View
  pub next : Option String

-- `a.created_ms - b.created_ms || (a.approval < b.approval ? -1 : 1)`, as "a stands before b".
abbrev pub older : ApprovalRecord → ApprovalRecord → Bool
older a b =
    ltb a.created_ms b.created_ms
    || (a.created_ms == b.created_ms && is_lt (compare a.approval b.approval))

-- `for (const rec of all) this.expireIfDue(rec)`, on the store.
unfoldable pub expire_all : ℕ → List ApprovalRecord → Store → Store
unfolding expire_if_due
expire_all now [] s = s
expire_all now (r ∷ rs) s =
    expire_all now rs (
      if is_pending r && reached now r.expires_ms
      then put r.approval (expire_if_due now r) s
      else s)

abbrev pub matching : Option ApprovalState → List ApprovalRecord → List ApprovalRecord
matching none rs = rs
matching (some st) rs = filter (λ r. same_state r.state st) rs

unfoldable pub list : ℕ → ListParams → Exec Store Page
unfolding expire_all view
list now p = do
  throw_if (ltb p.limit 1 || ltb 200 p.limit) (at schema_invalid "limit")
  all ← gets (λ s. sort older (values s))
  modify (expire_all now all)
  page ←
      or_throw
        (page_of (λ r. r.approval) p.after p.limit (matching p.state (map (expire_if_due now) all)))
        (at cursor_gone "after")
  pure (record { items = map view page.0; next = page.1 })

unfoldable pub get_view : ℕ → String → Exec Store ApprovalRecord
get_view now approval = get_live now approval
