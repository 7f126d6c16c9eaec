-- ===== src/Supervisor/Run/Waiting.antt =====
-- supervisor.rs: what ends the wait for the children.
use dashboard_quip_network.Prelude.{
  ◌≡◌, ◌≢◌, ◌⊎◌, Option, none, some, List, [], ◌∷◌, Result, ok, err, All, inl, inr, refl,
}
use dashboard_quip_network.Supervisor.Logs.{Role, collector, backend, caddy}
use dashboard_quip_network.Supervisor.Process.{IoError, WaitStatus, still_alive, ended, Signal}
use dashboard_quip_network.Supervisor.Run.{
  ExitReason, signalled, Statuses, not_alive, unexpected, Wake, term, interrupt, changes,
  wake_reason, or_else, supervise,
}

-- A signal ends the wait in a round in which, as in those before it, every child was alive.
abbrev pub IsSignalled : List Role → Signal → List (Statuses × Wake) → Type 0
IsSignalled children s [] = ⊥
IsSignalled children s ((seen, wake) ∷ rounds) =
    All (λ c. seen c ≡ ok still_alive) children
    × ((wake_reason wake ≡ some (signalled s)) ⊎ ((wake ≡ changes) × IsSignalled children s rounds))

not_alive-none :
    (role : Role) (o : Result IoError WaitStatus) → not_alive role o ≡ none → o ≡ ok still_alive
not_alive-none role (ok still_alive) e = refl
not_alive-none role (ok (ended n)) e = cc e
not_alive-none role (err fault) e = cc e

not_alive-signalled :
    (role : Role) (o : Result IoError WaitStatus) (s : Signal)
    → not_alive role o ≢ some (signalled s)
not_alive-signalled role (ok still_alive) s e = cc e
not_alive-signalled collector (ok (ended n)) s e = cc e
not_alive-signalled backend (ok (ended n)) s e = cc e
not_alive-signalled caddy (ok (ended n)) s e = cc e
not_alive-signalled role (err fault) s e = cc e

or_else-none : (o later : Option ExitReason) → or_else o later ≡ none → (o ≡ none) × (later ≡ none)
or_else-none none later e = (refl, e)
or_else-none (some r) later e = cc e

pub or_else-inv :
    (o later : Option ExitReason) (reason : ExitReason)
    → or_else o later ≡ some reason
    → (o ≡ some reason) ⊎ ((o ≡ none) × (later ≡ some reason))
or_else-inv none later reason e = inr (refl, e)
or_else-inv (some r) later reason e = inl e

pub unexpected-none :
    (children : List Role) (seen : Statuses)
    → unexpected children seen ≡ none
    → All (λ c. seen c ≡ ok still_alive) children
unfolding unexpected
unexpected-none [] seen e = tt
unexpected-none (c ∷ children) seen e =
    let (here, later) = or_else-none (not_alive c (seen c)) (unexpected children seen) e in
    (not_alive-none c (seen c) here, unexpected-none children seen later)

pub unexpected-signalled :
    (children : List Role) (seen : Statuses) (s : Signal)
    → unexpected children seen ≢ some (signalled s)
unfolding unexpected
unexpected-signalled [] seen s e = cc e
unexpected-signalled (c ∷ children) seen s e =
    elim (or_else-inv (not_alive c (seen c)) (unexpected children seen) (signalled s) e) [
      | inl here ↦ not_alive-signalled c (seen c) s here
      | inr (_, later) ↦ unexpected-signalled children seen s later
    ]

wake_reason-none : (wake : Wake) → wake_reason wake ≡ none → wake ≡ changes
wake_reason-none term e = cc e
wake_reason-none interrupt e = cc e
wake_reason-none changes e = refl

pub supervise-IsSignalled :
    (children : List Role) (rounds : List (Statuses × Wake)) (s : Signal)
    → supervise children rounds ≡ some (signalled s)
    → IsSignalled children s rounds
unfolding supervise
supervise-IsSignalled children [] s e = cc e
supervise-IsSignalled children ((seen, wake) ∷ rounds) s e =
    let later = supervise children rounds in
    elim (or_else-inv (unexpected children seen) (or_else (wake_reason wake) later) (signalled s)
      e) [
        | inl found ↦ absurd (unexpected-signalled children seen s found)
        | inr (quiet, woken) ↦ (
          unexpected-none children seen quiet,
          elim (or_else-inv (wake_reason wake) later (signalled s) woken) [
            | inl now ↦ inl now
            | inr (changed, rest) ↦
                inr (wake_reason-none wake changed, supervise-IsSignalled children rounds s rest)
          ],
        )
      ]
