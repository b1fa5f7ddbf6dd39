-- ===== src/Pipeline/Orchestrator/Lock.antt =====
-- When the runner of a wallet runs, between the calls of the repository of locks.
use poison_trace.Base.{
  ℤ, pos, ltb_ℤ, ◌≤ℤ◌, Bool, true, false, ◌||◌, List, [], ◌∷◌, ◌++◌, append-nil, append_assoc,
  Option, none, some, ◌≡◌, ◌∙◌, ap, sym, refl, arith, Option-cases, inl, inr, ◌⊎◌, Bool-cases,
}
use poison_trace.Text.{Str}
use poison_trace.Errors.{ErrorChain, Result, ok, err}
use poison_trace.Config.{Config}
use poison_trace.Pipeline.Runner.{WalletRunReport, WalletRunLimits, RunParams}
use poison_trace.Pipeline.Orchestrator.{
  Locks, WalletRunner, WalletWorld, lock_ttl_seconds, limits_of, run_one_wallet, run_within_limits,
  run_unlocked, release, wrap_runner, add_release_error, after_acquire,
}

-- What happens to a wallet: its lock is taken under a token or given back, or its runner runs.
pub data LockEvent : Type 0 where
  took : Str → Str → LockEvent
  ran : Str → WalletRunLimits → LockEvent
  gave : Str → Str → LockEvent

abbrev pub taken : Str → Result (Option Str) → List LockEvent
taken w (ok (some token)) = took w token ∷ []
taken w (ok none) = []
taken w (err e) = []

-- A world that writes down what happens.
pub record LogsLocks {S : Type 0} (locks : Locks S) (log : S → List LockEvent) : Type 0 where
  pub acquire_log :
      (w : Str) (ttl : ℤ) (s : S)
      → log (locks.acquire_wallet_lock w ttl s).1
        ≡ log s ++ taken w (locks.acquire_wallet_lock w ttl s).0
  pub release_log :
      (w t : Str) (s : S) → log (locks.release_wallet_lock w t s).1 ≡ log s ++ gave w t ∷ []

abbrev pub LogsRunner : {S : Type 0} → WalletRunner S → (S → List LockEvent) → Type 0
LogsRunner {S} runner log =
    (w : Str) (p : RunParams) (l : WalletRunLimits) (s : S)
    → log (runner w p l s).2 ≡ log s ++ ran w l ∷ []

abbrev pub LogsAny : {S : Type 0} → Option (Locks S) → (S → List LockEvent) → Type 0
LogsAny none log = Unit
LogsAny (some locks) log = LogsLocks locks log

abbrev pub IsPositive : WalletRunLimits → Type 0
IsPositive l = (pos 1 ≤ℤ l.max_tx_pages_per_wallet) × (pos 1 ≤ℤ l.max_tx_per_wallet)

abbrev pub has_locks : {S : Type 0} → Option (Locks S) → Bool
has_locks none = false
has_locks (some locks) = true

-- What may happen to a wallet, with locks or without, and the error that `runWallet` then gives; the
-- runner is left out only for one of the reasons `O`.
pub data Session (O : Type 0) (w : Str) (l : WalletRunLimits)
    : Bool → List LockEvent → Option ErrorChain → Type 0 where
  refused : (b : Bool) (e : ErrorChain) → O → Session O w l b [] (some e)
  stopped : (t : Str) (e : ErrorChain) → O → Session O w l true (took w t ∷ gave w t ∷ []) (some e)
  held :
      (t : Str) (e : Option ErrorChain)
      → IsPositive l
      → Session O w l true (took w t ∷ ran w l ∷ gave w t ∷ []) e
  unlocked : (e : Option ErrorChain) → IsPositive l → Session O w l false (ran w l ∷ []) e

module _ {S : Type 0} (world : WalletWorld S) (wallet : Str) (p : RunParams)
    (log : S → List LockEvent) where
  wrap_runner-state :
      (r : WalletRunReport × Option ErrorChain × S) → (wrap_runner world wallet p r).2 ≡ r.2
  unfolding wrap_runner
  wrap_runner-state (report, none, s) = refl
  wrap_runner-state (report, some e, s) = refl

  add_release_error-state :
      (report : WalletRunReport) (e : Option ErrorChain) (r : Result (Unit {0}) × S)
      → (add_release_error world wallet p report e r).2 ≡ r.1
  unfolding add_release_error
  add_release_error-state report e (ok u, s) = refl
  add_release_error-state report none (err f, s) = refl
  add_release_error-state report (some e) (err f, s) = refl

  -- An error stays one.
  add_release_error-some :
      (report : WalletRunReport) (e : ErrorChain) (r : Result (Unit {0}) × S)
      → (f : ErrorChain) × ((add_release_error world wallet p report (some e) r).1 ≡ some f)
  unfolding add_release_error
  add_release_error-some report e (ok u, s) = (e, refl)
  add_release_error-some report e (err f, s) = (_, refl)

  release-log :
      (locks : Locks S) (token : Str) (r : WalletRunReport × Option ErrorChain × S)
      → LogsLocks locks log
      → log (release world wallet p locks token r).2 ≡ log r.2 ++ gave wallet token ∷ []
  unfolding release
  release-log locks token (report, e, s) h =
      ap log (add_release_error-state report e (locks.release_wallet_lock wallet token s))
      ∙ h.release_log wallet token s

  release-some :
      (locks : Locks S) (token : Str) (r : WalletRunReport × Option ErrorChain × S) (e : ErrorChain)
      → r.1 ≡ some e
      → (f : ErrorChain) × ((release world wallet p locks token r).1 ≡ some f)
  unfolding release
  release-some locks token (report, d, s) e h =
      rw h (add_release_error-some report e (locks.release_wallet_lock wallet token s))

  -- The runner does not run, and there is an error, or it runs.
  run_unlocked-cases :
      (limits : WalletRunLimits) (s : S)
      → LogsRunner world.wallet_runner log
      → ((log (run_unlocked world wallet p limits s).2 ≡ log s)
          × ((e : ErrorChain) × ((world.context_error s ≡ some e)
                × ((run_unlocked world wallet p limits s).1 ≡ some e))))
        ⊎ (log (run_unlocked world wallet p limits s).2 ≡ log s ++ ran wallet limits ∷ [])
  unfolding run_unlocked
  run_unlocked-cases limits s h = elim (Option-cases (world.context_error s)) [
    | inr (e, over) ↦ inl (rw (run_unlocked, over) (refl, (e, (refl, refl))))
    | inl clear ↦ inr (rw (run_unlocked, clear, wrap_runner-state) (h wallet p limits s))
  ]

  abbrev IsOver : Type 0
  IsOver = (t : S) × ((e : ErrorChain) × (world.context_error t ≡ some e))

  abbrev IsTaken : Config → S → Type 0
  IsTaken cfg s =
      (locks : Locks S) × ((world.wallet_locks ≡ some locks)
        × (taken wallet (locks.acquire_wallet_lock wallet (lock_ttl_seconds world wallet p cfg) s).0
            ≡ []))

  -- Why a runner may not run: bounds that are not positive, the end of the context, or no lock.
  abbrev Obstacle : Config → S → Type 0
  Obstacle cfg s = (¬ IsPositive (limits_of cfg)) ⊎ (IsOver ⊎ IsTaken cfg s)

  -- A reply after a session that began in the world `s`.
  abbrev pub Ends : Bool → Config → S → WalletRunReport × Option ErrorChain × S → Type 0
  Ends b cfg s r =
      (events : List LockEvent) × ((log r.2 ≡ log s ++ events)
        × Session (Obstacle cfg s) wallet (limits_of cfg) b events r.1)

  after_acquire-Ends :
      (locks : Locks S) (cfg : Config) (s : S) (r : Result (Option Str) × S)
      → LogsRunner world.wallet_runner log
      → LogsLocks locks log
      → IsPositive (limits_of cfg)
      → log r.1 ≡ log s ++ taken wallet r.0
      → (taken wallet r.0 ≡ [] → IsTaken cfg s)
      → Ends true cfg s (after_acquire world wallet p locks (limits_of cfg) r)
  unfolding after_acquire
  after_acquire-Ends locks cfg s (err e, t) h k positive a n =
      ([], (a, refused true _ (inr (inr (n refl)))))
  after_acquire-Ends locks cfg s (ok none, t) h k positive a n =
      ([], (a, refused true _ (inr (inr (n refl)))))
  after_acquire-Ends locks cfg s (ok (some token), t) h k positive a n =
      let limits = limits_of cfg in
      let r = run_unlocked world wallet p limits t in
      let back = release-log locks token r k in
      elim (run_unlocked-cases limits t h) [
        | inl (same, (e, (ended, over))) ↦
            let (f, failed) = release-some locks token r e over in
            (
              took wallet token ∷ gave wallet token ∷ [],
              (
                back
                    ∙ ap (λ l. l ++ gave wallet token ∷ []) (same ∙ a)
                    ∙ append_assoc (log s) (took wallet token ∷ []) (gave wallet token ∷ []),
                rw failed (stopped token f (inr (inl (t, (e, ended))))),
              ),
            )
        | inr done ↦ (
          took wallet token ∷ ran wallet limits ∷ gave wallet token ∷ [],
          (
            back
                ∙ ap (λ l. l ++ gave wallet token ∷ [])
                    (done
                      ∙ ap (λ l. l ++ ran wallet limits ∷ []) a
                      ∙ append_assoc (log s) (took wallet token ∷ []) (ran wallet limits ∷ []))
                ∙ append_assoc (log s) (took wallet token ∷ ran wallet limits ∷ [])
                    (gave wallet token ∷ []),
            held token _ positive,
          ),
        )
      ]

  run_within_limits-Ends :
      (locks : Option (Locks S)) (cfg : Config) (s : S)
      → LogsRunner world.wallet_runner log
      → LogsAny locks log
      → IsPositive (limits_of cfg)
      → world.wallet_locks ≡ locks
      → Ends (has_locks locks) cfg s (run_within_limits world wallet p locks cfg (limits_of cfg) s)
  unfolding run_within_limits
  run_within_limits-Ends none cfg s h k positive w = elim (run_unlocked-cases (limits_of cfg) s h) [
    | inl (same, (e, (ended, over))) ↦ (
      [],
      (same ∙ sym (append-nil (log s)), rw over (refused false e (inr (inl (s, (e, ended)))))),
    )
    | inr done ↦ (ran wallet (limits_of cfg) ∷ [], (done, unlocked _ positive))
  ]
  run_within_limits-Ends (some locks) cfg s h k positive w =
      after_acquire-Ends locks cfg s _ h k positive (k.acquire_log wallet _ s)
        (λ n. (locks, (w, n)))

  -- In a world that logs the locks and the runner, and on every path: with locks the runner runs only
  -- between the taking of the wallet's lock and its return under the same token, at most once; a lock
  -- that is taken is given back once, also if the runner does not run; without locks the runner runs at
  -- most once. It runs under positive bounds. Where it does not run there is an error, and the bounds
  -- are not positive, the context has ended or no lock was given.
  pub run_one_wallet-Ends :
      (cfg : Config) (s : S)
      → LogsRunner world.wallet_runner log
      → LogsAny world.wallet_locks log
      → Ends (has_locks world.wallet_locks) cfg s (run_one_wallet world wallet p cfg s)
  unfolding run_one_wallet
  run_one_wallet-Ends cfg s h k =
      elim (Bool-cases (
        ltb_ℤ (limits_of cfg).max_tx_pages_per_wallet (pos 1)
        || ltb_ℤ (limits_of cfg).max_tx_per_wallet (pos 1))) [
          | inl bad ↦
              rw (run_one_wallet, bad)
                (
                  [],
                  (
                    sym (append-nil (log s)),
                    refused (has_locks world.wallet_locks) _
                        (inl (λ h. absurd (ground (arith, h)))),
                  ),
                )
          | inr good ↦
              rw (run_one_wallet, good)
                (run_within_limits-Ends world.wallet_locks cfg s h k (ground arith, ground arith)
                  refl)
        ]
