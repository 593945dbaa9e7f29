-- ===== src/Tracker/Group.antt =====
-- packages/tx-tracker/src/group.ts and group-events.ts: the group of transactions that is followed
-- as one. The identifier of the group is given; the tracker's subscriptions are the source of the
-- member events.
use evm_toolkit.Base.{
  ℕ, zero, suc, ◌+◌, ◌-◌, ◌*◌, ◌≤◌, ◌<◌, min, ◌≡◌, refl, sym, ap, ◌∙◌, ◌≢◌, ◌↔◌, ◌⊎◌, inl, inr,
  Bool, true, false, not, ◌&&◌, ◌||◌, Option, none, some, List, [], ◌∷◌, ◌++◌, map, arith, ltb, leb,
  ◌==◌, if◌then◌else◌, larger, or_else, is_some, Bool-cases, Option-cases, length, get_elem?, take,
  drop, last_or, filter, find, find_index_from, All, sum_where, sum_of, count_where, length-append,
  length-take, length-drop, All-append, All-map, sum_where-append, ltb→lt, lt→ltb, leb→le, le→leb,
}
use evm_toolkit.Base.Text.{Text, text_eq}
use evm_toolkit.Base.Assoc.{Entry, set}
use evm_toolkit.Tracker.Events.{
  At, Envelope, SeenInBlock, TxEventKind, seen_in_block, replaced_by, unseen_for_n_blocks, TxEvent,
  TxStatus,
}
pub mod Members
pub mod Runs
pub mod Stream

pub data FailReason : Type 0 where
  dropped failed replaced : FailReason

pub record GroupEnvelope : Type 0 where
  pub group_id : Text
  pub at : At

-- `kind` with the payload of each variant.
pub data GroupEventKind : Type 0 where
  -- The confirmed members, the size of the group, and the last member.
  group_progress : ℕ → ℕ → Text → GroupEventKind
  group_complete : ℕ → GroupEventKind
  group_failed : Text → FailReason → GroupEventKind
  group_stopped : GroupEventKind

pub record TxGroupEvent : Type 0 where
  pub envelope : GroupEnvelope
  pub kind : GroupEventKind

abbrev group_envelope : GroupEnvelope → GroupEnvelope
group_envelope e = record {
  group_id = e.group_id;
  at = record { block_number = e.at.block_number; timestamp = e.at.timestamp };
}

abbrev build_group_progress : GroupEnvelope → ℕ → ℕ → Text → TxGroupEvent
build_group_progress e confirmed total last = record {
  envelope = group_envelope e;
  kind = group_progress confirmed total last;
}

abbrev build_group_complete : GroupEnvelope → ℕ → TxGroupEvent
build_group_complete e total = record { envelope = group_envelope e; kind = group_complete total }

abbrev build_group_failed : GroupEnvelope → Text → FailReason → TxGroupEvent
build_group_failed e hash reason = record {
  envelope = group_envelope e;
  kind = group_failed hash reason;
}

abbrev build_group_stopped : GroupEnvelope → TxGroupEvent
build_group_stopped e = record { envelope = group_envelope e; kind = group_stopped }

-- `confirmedSet.has`
abbrev pub has : List Text → Text → Bool
has [] hash = false
has (h ∷ hashes) hash = text_eq h hash || has hashes hash

pub record GroupState : Type 0 where
  pub confirmed_set : List Text
  pub terminal : Bool
  pub stopped : Bool

pub record GroupTurn : Type 0 where
  pub after : GroupState
  pub events : List TxGroupEvent

abbrev pub idle : GroupState → GroupTurn
idle s = record { after = s; events = [] }

abbrev zero_at : Text → GroupEnvelope
zero_at group_id = record { group_id = group_id; at = record { block_number = 0; timestamp = 0 } }

-- `createTxGroup` up to its subscriptions: the state that it starts in, and what it emits.
unfoldable pub create_group : Text → List Text → GroupTurn
create_group group_id hashes =
    let empty = length hashes == 0 in
    record {
      after = record { confirmed_set = []; terminal = empty; stopped = false };
      events = if empty then build_group_complete (zero_at group_id) 0 ∷ [] else [];
    }

abbrev pub fail : GroupEnvelope → Text → FailReason → GroupState → GroupTurn
fail e hash reason s = record {
  after = record { confirmed_set = s.confirmed_set; terminal = true; stopped = s.stopped };
  events = build_group_failed e hash reason ∷ [];
}

unfoldable pub confirm_member : GroupEnvelope → ℕ → Text → GroupState → GroupTurn
confirm_member e total hash s =
    let confirmed = s.confirmed_set ++ hash ∷ [] in
    if has s.confirmed_set hash
    then idle s
    else (if ltb (length confirmed) total
        then record {
          after = record { confirmed_set = confirmed; terminal = s.terminal; stopped = s.stopped };
          events = build_group_progress e (length confirmed) total hash ∷ [];
        }
        else record {
          after = record { confirmed_set = confirmed; terminal = true; stopped = s.stopped };
          events = build_group_complete e total ∷ [];
        })

abbrev pub handle_kind : GroupEnvelope → ℕ → Text → TxEventKind → GroupState → GroupTurn
handle_kind e total hash (seen_in_block seen) s =
    if leb 1 seen.confirmations then confirm_member e total hash s else idle s
handle_kind e total hash (unseen_for_n_blocks blocks) s = fail e hash dropped s
handle_kind e total hash (replaced_by other number) s = fail e hash replaced s
handle_kind e total hash _ s = idle s

unfoldable pub handle_member_event : Text → ℕ → Text → TxEvent → GroupState → GroupTurn
handle_member_event group_id total hash event s =
    if s.terminal
    then idle s
    else handle_kind (record { group_id = group_id; at = event.envelope.at }) total hash event.kind
        s

unfoldable pub stop : Text → GroupState → GroupTurn
stop group_id s = if s.stopped then idle s else record {
  after = record { confirmed_set = s.confirmed_set; terminal = s.terminal; stopped = true };
  events = build_group_stopped (zero_at group_id) ∷ [];
}

snapshot_into :
    (Text → Option TxStatus)
    → List Text
    → List (Entry (Option TxStatus))
    → List (Entry (Option TxStatus))
snapshot_into status [] out = out
snapshot_into status (h ∷ hashes) out = snapshot_into status hashes (set out h (status h))

pub snapshot : (Text → Option TxStatus) → List Text → List (Entry (Option TxStatus))
unfolding snapshot_into
snapshot status hashes = snapshot_into status hashes []
