-- ===== src/Snapshot/Roundtrip.antt =====
-- A state that is dumped and loaded comes back.
use milky_frog_lite.Tokens.{role_value}
use milky_frog_lite.Prelude.{
  false, ◌≡◌, String, List, ℕ, str_eq, [], some, Bool-cases, map, ◌∷◌, ap, inl, refl, sym, eq_iff,
  inr, ◌+◌, All, Option, arith, Option-cases, none, eq_of_some-eq, subst,
}
use milky_frog_lite.Domain.Message.{Message, MessageRole, system, user, assistant, tool, is_system}
use milky_frog_lite.Domain.Run.{RunState}
use milky_frog_lite.Transcript.Roles.{IsTranscript, Carries}
use milky_frog_lite.Snapshot.Nested.{
  ToolCallSnapshot, call_to_snapshot, calls_back, compaction_back,
}
use milky_frog_lite.Snapshot.{
  messages_from, legacy_for, reasoning_or, role_of, message_from_snapshot, load_run_state,
  role_value, dump_run_state, nonempty, message_to_snapshot, Codec, to_snapshot, from_snapshot,
  with_messages, MessageSnapshot, prepend, RunSnapshot,
}

role_of-role_value : (r : MessageRole) → role_of (role_value r) ≡ some r
unfolding role_of
role_of-role_value system = refl
role_of-role_value user = refl
role_of-role_value assistant = refl
role_of-role_value tool = refl

reasoning_back : (r : String) → reasoning_or (nonempty r) "" ≡ r
unfolding reasoning_or
reasoning_back r = elim (Bool-cases (str_eq r "")) [
  | inl e ↦ rw e (sym ((eq_iff r "").0 e))
  | inr e ↦ rw e (rw e refl)
]

legacy_for_none : (calls : List ToolCallSnapshot) → legacy_for calls "" ≡ ""
unfolding legacy_for
legacy_for_none [] = refl
legacy_for_none (_ ∷ _) = refl

message_back : (m : Message) → message_from_snapshot (message_to_snapshot m) "" ≡ some m
unfolding message_from_snapshot message_to_snapshot
message_back m =
    rw
      (
        role_of-role_value m.role,
        message_from_snapshot,
        legacy_for_none (map call_to_snapshot m.tool_calls),
        calls_back m.tool_calls,
      )
      (ap (λ r. some (record m { reasoning = r })) (reasoning_back m.reasoning))

role-message_to_snapshot : (m : Message) → (message_to_snapshot m).role ≡ role_value m.role
unfolding message_to_snapshot
role-message_to_snapshot m = refl

not_system : (r : MessageRole) (m : Message) → Carries r m → str_eq (role_value r) "system" ≡ false
not_system system m c = absurd c
not_system user m c = refl
not_system assistant m c = refl
not_system tool m c = refl

system_kept :
    (m : Message) → Carries m.role m → str_eq (message_to_snapshot m).role "system" ≡ false
system_kept m h = rw (role-message_to_snapshot m) (not_system m.role m h)

messages_back :
    (ms : List Message) (n : ℕ)
    → IsTranscript ms
    → messages_from [] (map message_to_snapshot ms) n ≡ some ms
unfolding messages_from
messages_back [] n h = refl
messages_back (m ∷ ms) n h = elim (Bool-cases (str_eq (message_to_snapshot m).role "assistant")) [
  | inl a ↦ rw (system_kept m h.0, a, message_back m, messages_back ms (n + 1) h.1)
  | inr a ↦ rw (system_kept m h.0, a, message_back m, messages_back ms n h.1)
]

legacy_log_empty : (state : RunState) → (to_snapshot state).legacy_reasoning_log ≡ []
unfolding to_snapshot
legacy_log_empty state = refl

from_to :
    (state : RunState)
    → IsTranscript state.messages
    → from_snapshot state.run_id state.workspace (to_snapshot state) ≡ some state
unfolding from_snapshot to_snapshot with_messages
from_to state h = rw (messages_back state.messages 0 h, compaction_back state.compaction)

-- A state whose transcript is well formed comes back whole from its snapshot.
pub load_run_state-dump_run_state :
    (codec : Codec) (state : RunState)
    → IsTranscript state.messages
    → load_run_state codec state.run_id state.workspace (dump_run_state codec state) ≡ some state
unfolding load_run_state dump_run_state
load_run_state-dump_run_state codec state h =
    rw (codec.decode-encode (to_snapshot state) (legacy_log_empty state), load_run_state)
      (from_to state h)

role_of_not_system :
    (value : String) (r : MessageRole)
    → str_eq value "system" ≡ false
    → role_of value ≡ some r
    → is_system r ≡ false
unfolding role_of
role_of_not_system value r ne h = ground arith

prepend_cases :
    (m : Option Message) (ms : Option (List Message)) (l : List Message)
    → prepend m ms ≡ some l
    → (x : Message) × (xs : List Message) × (m ≡ some x) × (ms ≡ some xs) × (x ∷ xs ≡ l)
unfolding prepend
prepend_cases none ms l h = cc
prepend_cases (some x) none l h = cc
prepend_cases (some x) (some xs) l h = (x, xs, refl, refl, eq_of_some-eq h)

message_not_system :
    (s : MessageSnapshot) (legacy : String) (m : Message)
    → str_eq s.role "system" ≡ false
    → message_from_snapshot s legacy ≡ some m
    → is_system m.role ≡ false
unfolding message_from_snapshot
message_not_system s legacy m ne h = elim (Option-cases (role_of s.role)) [
  | inl e ↦ let h' : none ≡ some m = rw (e, message_from_snapshot) at h in cc
  | inr (r, e) ↦
      let h' = eq_of_some-eq (rw (e, message_from_snapshot) at h) in
      subst (λ (k : Message). is_system k.role ≡ false) h' (role_of_not_system s.role r ne e)
]

messages_no_system :
    (log : List String) (xs : List MessageSnapshot) (n : ℕ) (ms : List Message)
    → messages_from log xs n ≡ some ms
    → All (λ (m : Message). is_system m.role ≡ false) ms
unfolding messages_from
messages_no_system log [] n ms h =
    subst (All (λ (m : Message). is_system m.role ≡ false)) (eq_of_some-eq h) tt
messages_no_system log (x ∷ xs) n ms h = elim (Bool-cases (str_eq x.role "system")) [
  | inl dropped ↦ messages_no_system log xs _ ms (rw dropped at h)
  | inr kept ↦
      let (m, l, e, f, g) = prepend_cases _ _ ms (rw kept at h) in
      subst (All (λ (k : Message). is_system k.role ≡ false)) g
        (message_not_system x _ m kept e, messages_no_system log xs _ l f)
]

with_messages_cases :
    (run_id workspace : String) (s : RunSnapshot) (o : Option (List Message)) (state : RunState)
    → with_messages run_id workspace s o ≡ some state
    → o ≡ some state.messages
unfolding with_messages
with_messages_cases run_id workspace s none state h = cc
with_messages_cases run_id workspace s (some ms) state h =
    ap (λ (k : RunState). some k.messages) (eq_of_some-eq h)

-- The snapshots of older versions may hold SYSTEM messages; whatever text is loaded, the state has
-- none.
load_run_state_no_system :
    (codec : Codec) (run_id workspace : String) (raw : codec.Encoded) (state : RunState)
    → load_run_state codec run_id workspace raw ≡ some state
    → All (λ (m : Message). is_system m.role ≡ false) state.messages
unfolding load_run_state from_snapshot
load_run_state_no_system codec run_id workspace raw state h =
    elim (Option-cases (codec.decode raw)) [
      | inl e ↦ let h' : none ≡ some state = rw (e, load_run_state) at h in cc
      | inr (s, e) ↦ messages_no_system s.legacy_reasoning_log s.messages 0 state.messages (
          with_messages_cases run_id workspace s (messages_from s.legacy_reasoning_log s.messages 0)
            state (rw (e, load_run_state) at h))
    ]
