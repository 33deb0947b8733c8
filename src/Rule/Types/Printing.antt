-- ===== src/Rule/Types/Printing.antt =====
-- Policies read and printed.
use home_guard.Prelude.{◌≡◌, refl, sym, inl, inr, ◌==◌, nat_eq, list_eq, beq_iff, Bool-cases}
use home_guard.Prelude.Text.{Text, bytes, to_uppercase}
use home_guard.Rule.Types.{show_policy, policy_of}

-- A policy that is read from a text and printed is the text in upper case: names of proxies lose
-- their case.
pub show_policy-policy_of : (s : Text) → show_policy (policy_of s) ≡ to_uppercase s
unfolding show_policy policy_of
show_policy-policy_of s = elim (Bool-cases (to_uppercase s == bytes "DIRECT")) [
  | inl first ↦ rw first (sym ((beq_iff (to_uppercase s) (bytes "DIRECT")).0 first))
  | inr other ↦ elim (Bool-cases (to_uppercase s == bytes "REJECT")) [
    | inl second ↦ rw (other, second) (sym ((beq_iff (to_uppercase s) (bytes "REJECT")).0 second))
    | inr name ↦ rw (other, name) refl
  ]
]
