-- ===== src/Store/Submissions/Checkpoints.antt =====
-- miners.rs: the checkpoint of a miner bounds its submissions and does not go back.
use dashboard_quip_network.Prelude.{
  ℕ, ◌≡◌, ◌≤◌, true, false, Option, none, some, leb, max, ok, ok-injective, arith, refl, Bool-cases,
  Option-cases, inl, inr, ◌∙◌, sym, ap, subst,
}
use mathlib.Core.Option.{some-injective}
use dashboard_quip_network.Prelude.Words.{u64_max}
use dashboard_quip_network.Prelude.Texts.{same_text, same_text_refl, same_text-eq}
use dashboard_quip_network.Decimal.{Text, parse_u64, print_u64}
use dashboard_quip_network.Decimal.Print.{parse_u64-print_u64}
use dashboard_quip_network.Store.Submissions.{parsed_checkpoint, set_checkpoint, advance}

-- The checkpoint of the miner reads as a number that is not below this one.
abbrev pub IsReached : (Text → Option Text) → Text → ℕ → Type 0
IsReached table miner number =
    (t : Text) × (n : ℕ) × (table miner ≡ some t) × (parse_u64 t ≡ some n) × (number ≤ n)

-- A checkpoint that was written can be read, and is `n`, or there is none and `n` is 0.
abbrev pub IsCheckpoint : Option Text → ℕ → Type 0
IsCheckpoint none n = n ≡ 0
IsCheckpoint (some t) n = parse_u64 t ≡ some n

pub parsed_checkpoint-IsCheckpoint :
    (o : Option Text) (n : ℕ) → parsed_checkpoint o ≡ ok n → IsCheckpoint o n
unfolding parsed_checkpoint
parsed_checkpoint-IsCheckpoint none n e = sym (ok-injective e)
parsed_checkpoint-IsCheckpoint (some t) n e = ground arith

pub advance-other :
    (miner other : Text) (old checkpoint : ℕ) (table : Text → Option Text)
    → same_text other miner ≡ false
    → advance miner old checkpoint table other ≡ table other
unfolding advance set_checkpoint
advance-other miner other old checkpoint table apart = ground arith

advance-up :
    (miner : Text) (old checkpoint : ℕ) (table : Text → Option Text)
    → leb old checkpoint ≡ true
    → advance miner old checkpoint table miner ≡ some (print_u64 checkpoint)
unfolding advance set_checkpoint
advance-up miner old checkpoint table up = rw (up, same_text_refl miner) refl

advance-stays :
    (miner : Text) (old checkpoint : ℕ) (table : Text → Option Text)
    → leb old checkpoint ≡ false
    → advance miner old checkpoint table miner ≡ table miner
unfolding advance
advance-stays miner old checkpoint table down = rw down refl

-- What is reached at the miner after a commit: all up to the checkpoint, and up to the old one.
pub advance-IsReached :
    (miner : Text) (old checkpoint number : ℕ) (table : Text → Option Text)
    → checkpoint ≤ u64_max
    → IsCheckpoint (table miner) old
    → number ≤ max old checkpoint
    → IsReached (advance miner old checkpoint table) miner number
advance-IsReached miner old checkpoint number table fits stored below =
    elim (Bool-cases (leb old checkpoint)) [
      | inl up ↦ (
        print_u64 checkpoint,
        checkpoint,
        advance-up miner old checkpoint table up,
        parse_u64-print_u64 checkpoint fits,
        ground arith,
      )
      | inr down ↦ elim (Option-cases (table miner)) [
        | inl nothing ↦ absurd (ground (arith, subst (λ o. IsCheckpoint o old) nothing stored))
        | inr (t, has) ↦ (
          t,
          old,
          advance-stays miner old checkpoint table down ∙ has,
          subst (λ o. IsCheckpoint o old) has stored,
          ground arith,
        )
      ]
    ]

pub advance-keeps :
    (miner other : Text) (old checkpoint number : ℕ) (table : Text → Option Text)
    → checkpoint ≤ u64_max
    → IsCheckpoint (table miner) old
    → IsReached table other number
    → IsReached (advance miner old checkpoint table) other number
advance-keeps miner other old checkpoint number table fits stored (t, n, has, reads, below) =
    elim (Bool-cases (same_text other miner)) [
      | inr apart ↦ (t, n, advance-other miner other old checkpoint table apart ∙ has, reads, below)
      | inl same ↦
          let at = same_text-eq other miner same in
          let read_old = subst (λ o. IsCheckpoint o old) (ap table (sym at) ∙ has) stored in
          subst (λ m. IsReached (advance miner old checkpoint table) m number) (sym at)
            (advance-IsReached miner old checkpoint number table fits stored
              (ground (arith, read_old, reads, below)))
    ]

pub advance-IsCheckpoint :
    (miner : Text) (old checkpoint : ℕ) (table : Text → Option Text)
    → checkpoint ≤ u64_max
    → IsCheckpoint (table miner) old
    → IsCheckpoint (advance miner old checkpoint table miner) (max old checkpoint)
advance-IsCheckpoint miner old checkpoint table fits stored =
    elim (Bool-cases (leb old checkpoint)) [
      | inl up ↦
          subst (λ o. IsCheckpoint o (max old checkpoint))
            (sym (advance-up miner old checkpoint table up))
            (parse_u64-print_u64 checkpoint fits ∙ ap some (ground arith))
      | inr down ↦
          subst (λ o. IsCheckpoint o (max old checkpoint))
            (sym (advance-stays miner old checkpoint table down))
            (subst (IsCheckpoint (table miner)) (ground arith) stored)
    ]

pub IsCheckpoint-unique : (o : Option Text) (a b : ℕ) → IsCheckpoint o a → IsCheckpoint o b → a ≡ b
IsCheckpoint-unique none a b p q = p ∙ sym q
IsCheckpoint-unique (some t) a b p q = some-injective a b (sym p ∙ q)

pub set_checkpoint_self :
    (miner : Text) (table : Text → Option Text) → set_checkpoint miner none table miner ≡ none
unfolding set_checkpoint
set_checkpoint_self miner table = rw (same_text_refl miner) refl

pub reset_other :
    (miner other : Text) (number : ℕ) (table : Text → Option Text)
    → IsReached table other number × (same_text other miner ≡ false)
    → IsReached (set_checkpoint miner none table) other number
unfolding set_checkpoint
reset_other miner other number table (reached, apart) = rw apart reached
