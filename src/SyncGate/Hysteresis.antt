-- ===== src/SyncGate/Hysteresis.antt =====
-- sync_gate.rs over a whole history of observations.
use native.Mathlib.Nat.{add-zero, add_assoc}
use dashboard_quip_network.Prelude.{
  length, ◌++◌, ◌∙◌, subst, sym, ℕ, zero, suc, ◌+◌, ◌≤◌, ◌<◌, ◌/◌, ◌≡◌, ◌↔◌, refl, true, false,
  List, [], ◌∷◌, arith, leb, min, ◌==◌, if◌then◌else◌, Bool-cases, inl, inr,
}
use dashboard_quip_network.Prelude.Words.{u64_max, saturating_add}
use dashboard_quip_network.SyncGate.{
  SyncGate, default, MethodMetrics, sum_metrics, from_metrics, Observation, paused_now, evaluate,
  resume_hysteresis,
}

-- The gate after a history, newest observation first.
pub gate_after : List Observation → SyncGate
gate_after [] = default
gate_after (o ∷ older) = (evaluate (gate_after older) o).0

-- The newest `n` observations exist and none of them asks for a pause.
abbrev pub CalmFor : ℕ → List Observation → Type 0
CalmFor zero os = Unit
CalmFor (suc n) [] = ⊥
CalmFor (suc n) (o ∷ os) = (paused_now o ≡ false) × CalmFor n os

-- How many of the newest observations are calm, up to the first that is not.
abbrev calm_run : List Observation → ℕ
calm_run [] = 0
calm_run (o ∷ os) = let rest = calm_run os in if paused_now o then 0 else suc rest

gate_after-runs : (os : List Observation) → (gate_after os).in_sync_runs ≡ min (calm_run os) u64_max
unfolding gate_after evaluate
gate_after-runs [] = refl
gate_after-runs (o ∷ os) = ground (arith, gate_after-runs os)

CalmFor-iff : (n : ℕ) (os : List Observation) → CalmFor n os ↔ (n ≤ calm_run os)
CalmFor-iff zero os = (λ _. omega arith, λ _. tt)
CalmFor-iff (suc n) [] = (λ h. absurd h, λ h. absurd (omega arith))
CalmFor-iff (suc n) (o ∷ os) =
    (λ h. ground (arith, (CalmFor-iff n os).0), λ h. ground (arith, (CalmFor-iff n os).1))

-- After any history the backfill may run exactly if the newest ten observations, the one at hand
-- included, are all calm.
pub resumes_iff :
    (older : List Observation) (o : Observation)
    → ((evaluate (gate_after older) o).1.paused ≡ false) ↔ CalmFor resume_hysteresis (o ∷ older)
unfolding evaluate
resumes_iff older o = (
  λ h. ground (arith, gate_after-runs older, (CalmFor-iff 9 older).1),
  λ h. ground (arith, gate_after-runs older, (CalmFor-iff 9 older).0),
)

short_run :
    (n : ℕ) (calm : List Observation) (o : Observation) (older : List Observation)
    → paused_now o ≡ true
    → length calm < n
    → CalmFor n (calm ++ o ∷ older)
    → ⊥
short_run zero calm o older h l c = omega arith
short_run (suc n) [] o older h l c = ground arith
short_run (suc n) (x ∷ xs) o older h l c = short_run n xs o older h (omega arith) c.1

-- Fewer than ten observations after one that asks for a pause, or at that one itself, the
-- backfill is paused.
pub pause_holds :
    (older calm : List Observation) (o p : Observation) (ps : List Observation)
    → paused_now o ≡ true
    → length calm < resume_hysteresis
    → calm ++ o ∷ older ≡ p ∷ ps
    → (evaluate (gate_after ps) p).1.paused ≡ true
pause_holds older calm o p ps h l e = elim (Bool-cases (evaluate (gate_after ps) p).1.paused) [
  | inl t ↦ t
  | inr f ↦ absurd (
      short_run resume_hysteresis calm o older h l
        (subst (CalmFor resume_hysteresis) (sym e) ((resumes_iff ps p).0 f)))
]

abbrev pub total_micros : List MethodMetrics → ℕ
total_micros [] = 0
total_micros (m ∷ ms) = m.elapsed_micros + total_micros ms

abbrev pub total_calls : List MethodMetrics → ℕ
total_calls [] = 0
total_calls (m ∷ ms) = m.calls + total_calls ms

sum_metrics-average :
    (micros calls : ℕ) (ms : List MethodMetrics)
    → micros + total_micros ms ≤ u64_max
    → calls + total_calls ms ≤ u64_max
    → sum_metrics micros calls ms ≡ record {
      average_micros =
          if calls + total_calls ms == 0
          then 0
          else (micros + total_micros ms) / (calls + total_calls ms);
    }
unfolding sum_metrics
sum_metrics-average micros calls [] m c = rw (add-zero, add-zero) refl
sum_metrics-average micros calls (x ∷ ms) m c =
    let p : saturating_add micros
          (if leb x.elapsed_micros u64_max then x.elapsed_micros else u64_max)
        ≡ micros + x.elapsed_micros =
      ground arith in
    let q : saturating_add calls x.calls ≡ calls + x.calls = omega arith in
    rw (p, q)
      (sum_metrics-average (micros + x.elapsed_micros) (calls + x.calls) ms (omega arith)
          (omega arith)
        ∙ rw (add_assoc, add_assoc) refl)

-- Where the sums fit a u64 the latency sample is the mean over all calls, and 0 if there are
-- none.
pub from_metrics-mean :
    (ms : List MethodMetrics)
    → total_micros ms ≤ u64_max
    → total_calls ms ≤ u64_max
    → (from_metrics ms).average_micros
      ≡ (if total_calls ms == 0 then 0 else total_micros ms / total_calls ms)
unfolding from_metrics
from_metrics-mean ms m c = ground (arith, sum_metrics-average 0 0 ms)
