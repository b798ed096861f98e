-- ===== src/CallRegistry.antt =====
-- src/call-registry.ts: the calls that are up, and the call ids reserved for calls being set up.
-- A dialog of the SIP library is a reference, a number; the time is an argument.
pub mod Reserve
pub mod Invariant
mod Tests
use rtc_session_gateway.Base.{
  ℕ, zero, suc, ◌+◌, String, Bool, true, false, ◌||◌, Option, none, some, List, [], ◌∷◌, map,
  if◌then◌else◌, length, or_else,
}
use rtc_session_gateway.Base.Text.{◌<>◌}
use rtc_session_gateway.Base.Assoc.{Map, StringSet, lookup, has, insert, erase, values}
use rtc_session_gateway.Base.Decimal.{decimal}
use rtc_session_gateway.CallId.{normalize_call_id}

pub record ActiveCallSnapshot : Type 0 where
  pub call_id : String
  pub sip_call_id : String
  pub route_url : String
  pub receiver_url : String
  pub control_connection_id : Option String
  pub destination_uri : String
  pub destination_user : Option String
  pub source_uri : Option String
  pub local_sdp : Option String
  pub remote_sdp : Option String
  pub created_at : String
  pub updated_at : String

pub record ActiveCall : Type 0 where
  pub snapshot : ActiveCallSnapshot
  pub open snapshot use *
  pub dialog : ℕ

abbrev pub snapshot_call : ActiveCall → ActiveCallSnapshot
snapshot_call call = call.snapshot

pub record CallRegistry : Type 0 where
  pub calls : Map ActiveCall
  pub reservations : StringSet

abbrev pub empty : CallRegistry
empty = record { calls = []; reservations = [] }

abbrev pub has_call_or_reservation : CallRegistry → String → Bool
has_call_or_reservation r id = has id r.calls || has id r.reservations

-- the `while` loop of `reserveCallId`, with fuel
unfoldable pub reserve_loop : ℕ → (String → Bool) → String → String → ℕ → Option String
reserve_loop zero taken base candidate suffix = none
reserve_loop (suc fuel) taken base candidate suffix =
    let rest = reserve_loop fuel taken base (base <> "-" <> decimal suffix) (suffix + 1) in
    if taken candidate then rest else some candidate

abbrev reserved : CallRegistry → Option String → Option (String × CallRegistry)
reserved r none = none
reserved r (some id) = some (id, record r { reservations = insert id tt r.reservations })

-- none stands for a loop that has not ended
unfoldable pub reserve_call_id : CallRegistry → String → String → Option (String × CallRegistry)
unfolding reserve_loop
reserve_call_id r uuid sip_call_id =
    let base = normalize_call_id uuid (some sip_call_id) in
    reserved r (
      reserve_loop (suc (length r.calls + length r.reservations)) (has_call_or_reservation r) base
        base 2)

unfoldable pub release_reservation : CallRegistry → String → CallRegistry
release_reservation r id = record r { reservations = erase id r.reservations }

unfoldable pub activate : CallRegistry → ActiveCall → CallRegistry
unfolding release_reservation
activate r call =
    let released = release_reservation r call.call_id in
    record released { calls = insert call.call_id call released.calls }

abbrev pub get : CallRegistry → String → Option ActiveCall
get r id = lookup id r.calls

abbrev pub list : CallRegistry → List ActiveCallSnapshot
list r = map snapshot_call (values r.calls)

remove_found : CallRegistry → String → Option ActiveCall → Option ActiveCall × CallRegistry
remove_found r id none = (none, r)
remove_found r id (some call) = (some call, record r { calls = erase id r.calls })

unfoldable pub remove : CallRegistry → String → Option ActiveCall × CallRegistry
unfolding remove_found
remove r id = remove_found r id (get r id)

-- `new_sdp ?? old_sdp`
abbrev or_old : Option String → Option String → Option String
or_old none old = old
or_old (some new) old = some new

with_sdp : ActiveCall → Option String → Option String → String → ActiveCall
with_sdp call local_sdp remote_sdp now = record call {
  snapshot = record (call.snapshot) {
    local_sdp = or_old local_sdp call.local_sdp;
    remote_sdp = or_old remote_sdp call.remote_sdp;
    updated_at = now;
  };
}

update_found :
    CallRegistry
    → String
    → Option ActiveCall
    → Option String
    → Option String
    → String
    → CallRegistry
unfolding with_sdp
update_found r id none local_sdp remote_sdp now = r
update_found r id (some call) local_sdp remote_sdp now = record r {
  calls = insert id (with_sdp call local_sdp remote_sdp now) r.calls;
}

-- The call is changed in place: its entry keeps its key.
unfoldable pub update_sdp :
    CallRegistry → String → Option String → Option String → String → CallRegistry
unfolding update_found
update_sdp r id local_sdp remote_sdp now = update_found r id (get r id) local_sdp remote_sdp now

abbrev pub size : CallRegistry → ℕ
size r = length r.calls

abbrev pub pending_count : CallRegistry → ℕ
pending_count r = length r.reservations
