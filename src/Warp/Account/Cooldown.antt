-- ===== src/Warp/Account/Cooldown.antt =====
-- src/warp/account.rs: how often the WARP API is asked for a new account.
use cf_warp_rust.Net.{v4, WireGuardConfig}
use cf_warp_rust.Base.{
  other, Bool, true, ap, sym, All, Bool-cases, List, Option, Outcome, [], arith, crash, err, false,
  inl, inr, none, ok, refl, some, ℕ, ◌+◌, ◌-◌, ◌<◌, ◌∙◌, ◌∷◌, ◌≡◌, ◌≢◌, ◌≤◌, ◌⊎◌,
}
use cf_warp_rust.Warp.Persistence.{load}
use cf_warp_rust.Warp.Account.{
  unless_cooling, World, AccountManager, AccountCandidate, AccountFile, prepare_reregister,
  attempt_register, register_candidate, memory_cooling, disk_cooling,
}

-- The answer is no candidate.
abbrev pub Refuses : Outcome AccountCandidate → Type 0
Refuses r = (c : AccountCandidate) → r ≢ ok c

attempt_cases :
    (w : World) (m : AccountManager)
    → (Refuses (attempt_register w m).0 × ((attempt_register w m).1 ≡ m))
      ⊎ ((attempt_register w m
            ≡ (register_candidate w m.cfg, record m { last_register_attempt = some w.now }))
          × (memory_cooling w m.cfg m.last_register_attempt ≡ false))
unfolding attempt_register
attempt_cases w m = elim (Bool-cases (memory_cooling w m.cfg m.last_register_attempt)) [
  | inl hot ↦ inl (λ c h. ground arith, rw hot)
  | inr cold ↦ inr (rw cold, cold)
]

-- Each call of `prepare_reregister` either refuses and changes nothing, or asks the API: then it answers as
-- the registration does, records its own instant, and the last attempt is at least the cooldown ago.
pub prepare_reregister_cases :
    (w : World) (m : AccountManager)
    → (Refuses (prepare_reregister w m).0 × ((prepare_reregister w m).1 ≡ m))
      ⊎ ((prepare_reregister w m
            ≡ (register_candidate w m.cfg, record m { last_register_attempt = some w.now }))
          × ((last : ℕ)
              → m.last_register_attempt ≡ some last
              → m.cfg.register_cooldown ≤ w.now - last))
unfolding prepare_reregister memory_cooling unless_cooling
prepare_reregister_cases w m = of (load w.readable w.parses m.disk) refl
  where
    Goal : Type 0
    Goal =
        (Refuses (prepare_reregister w m).0 × ((prepare_reregister w m).1 ≡ m))
        ⊎ ((prepare_reregister w m
              ≡ (register_candidate w m.cfg, record m { last_register_attempt = some w.now }))
            × ((last : ℕ)
                → m.last_register_attempt ≡ some last
                → m.cfg.register_cooldown ≤ w.now - last))

    attempt : prepare_reregister w m ≡ attempt_register w m → Goal
    attempt e = elim (attempt_cases w m) [
      | inl (r, same) ↦ inl (rw e r, rw e same)
      | inr (asked, cold) ↦ inr (e ∙ asked, λ last h. ground (arith, cold, h))
    ]

    of : (l : Outcome (Option AccountFile)) → load w.readable w.parses m.disk ≡ l → Goal
    of (err e) h = inl (rw (h, prepare_reregister) (λ c x. cc), rw (h, prepare_reregister))
    of crash h = inl (rw (h, prepare_reregister) (λ c x. cc), rw (h, prepare_reregister))
    of (ok none) h = attempt (rw (h, prepare_reregister))
    of (ok (some f)) h = by_file (disk_cooling w m.cfg f) refl
      where
        by_file : (d : Outcome Bool) → disk_cooling w m.cfg f ≡ d → Goal
        by_file (ok true) d =
            inl (rw (h, prepare_reregister, d) (λ c x. cc), rw (h, prepare_reregister, d))
        by_file (ok false) d = attempt (rw (h, prepare_reregister, d))
        by_file (err e) d =
            inl (rw (h, prepare_reregister, d) (λ c x. cc), rw (h, prepare_reregister, d))
        by_file crash d =
            inl (rw (h, prepare_reregister, d) (λ c x. cc), rw (h, prepare_reregister, d))

-- The answers of a row of calls, and the manager after them.
unfoldable pub prepare_all :
    AccountManager → List World → List (Outcome AccountCandidate) × AccountManager
prepare_all m [] = ([], m)
prepare_all m (w ∷ ws) =
    let (r, n) = prepare_reregister w m in let (rs, o) = prepare_all n ws in (r ∷ rs, o)

quiet :
    (m : AccountManager) (t : ℕ) (ws : List World)
    → m.last_register_attempt ≡ some t
    → All (λ (w : World). (t ≤ w.now) × (w.now < t + m.cfg.register_cooldown)) ws
    → All Refuses (prepare_all m ws).0 × ((prepare_all m ws).1 ≡ m)
unfolding prepare_all
quiet m t [] h a = (tt, refl)
quiet m t (w ∷ ws) h a = elim (prepare_reregister_cases w m) [
  | inl (r, same) ↦ let (rs, end) = quiet m t ws h a.1 in ((r, rw same rs), rw same end)
  | inr (asked, gap) ↦ absurd (omega (arith, gap t h, a.0))
]

abbrev answering : World → Outcome (WireGuardConfig × ℕ) → World
answering w o = record w { register = o }

-- The call asks the API: whatever the API answers, the call answers as the registration does.
abbrev pub Asks : World → AccountManager → Type 0
Asks w m =
    (o : Outcome (WireGuardConfig × ℕ))
    → (prepare_reregister (answering w o) m).0 ≡ register_candidate (answering w o) m.cfg

-- Some registration that works.
abbrev some_account : WireGuardConfig × ℕ
some_account = (
  record {
    keys = 0;
    peer_endpoint = record { ip = v4 0 0 0 0; port = 0 };
    peer_endpoint_candidates = [];
    mtu = none;
    tcp_buffer_size = none;
  },
  0,
)

-- What is recorded does not depend on what the API answers.
attempt_hot :
    (w : World) (m : AccountManager)
    → memory_cooling w m.cfg m.last_register_attempt ≡ true
    → attempt_register w m ≡ (err (other "register cooldown active after recent attempt"), m)
unfolding attempt_register
attempt_hot w m hot = rw hot refl

attempt_cold :
    (w : World) (m : AccountManager)
    → memory_cooling w m.cfg m.last_register_attempt ≡ false
    → attempt_register w m
      ≡ (register_candidate w m.cfg, record m { last_register_attempt = some w.now })
unfolding attempt_register
attempt_cold w m cold = rw cold refl

memory_anyway :
    (w : World) (m : AccountManager) (o : Outcome (WireGuardConfig × ℕ)) (l : Option ℕ)
    → memory_cooling (answering w o) m.cfg l ≡ memory_cooling w m.cfg l
unfolding memory_cooling
memory_anyway w m o none = refl
memory_anyway w m o (some t) = refl

attempt_anyway :
    (w : World) (m : AccountManager) (o : Outcome (WireGuardConfig × ℕ))
    → (attempt_register (answering w o) m).1 ≡ (attempt_register w m).1
attempt_anyway w m o =
    let same = memory_anyway w m o m.last_register_attempt in
    elim (Bool-cases (memory_cooling w m.cfg m.last_register_attempt)) [
      | inl hot ↦
          ap (λ r. r.1) (attempt_hot (answering w o) m (same ∙ hot) ∙ sym (attempt_hot w m hot))
      | inr cold ↦
          ap (λ r. r.1) (attempt_cold (answering w o) m (same ∙ cold))
          ∙ ap (λ r. r.1) (sym (attempt_cold w m cold))
    ]

unless_anyway :
    (w : World) (m : AccountManager) (o : Outcome (WireGuardConfig × ℕ)) (d : Outcome Bool)
    → (unless_cooling (answering w o) m d).1 ≡ (unless_cooling w m d).1
unfolding unless_cooling
unless_anyway w m o (err e) = refl
unless_anyway w m o crash = refl
unless_anyway w m o (ok true) = refl
unless_anyway w m o (ok false) = attempt_anyway w m o

recorded_anyway :
    (w : World) (m : AccountManager) (o : Outcome (WireGuardConfig × ℕ))
    → (prepare_reregister (answering w o) m).1 ≡ (prepare_reregister w m).1
unfolding prepare_reregister disk_cooling
recorded_anyway w m o = of (load w.readable w.parses m.disk) refl
  where
    of :
        (l : Outcome (Option AccountFile))
        → load w.readable w.parses m.disk ≡ l
        → (prepare_reregister (answering w o) m).1 ≡ (prepare_reregister w m).1
    of (err e) h = rw (prepare_reregister, h) refl
    of crash h = rw (prepare_reregister, h) refl
    of (ok none) h = rw (prepare_reregister, h) (attempt_anyway w m o)
    of (ok (some f)) h = rw (prepare_reregister, h) (unless_anyway w m o (disk_cooling w m.cfg f))

asked_records :
    (w : World) (m : AccountManager)
    → Asks w m
    → (prepare_reregister w m).1 ≡ record m { last_register_attempt = some w.now }
unfolding register_candidate
asked_records w m asks = elim (prepare_reregister_cases (answering w (ok some_account)) m) [
  | inl (r, same) ↦ absurd (r _ (asks (ok some_account)))
  | inr (asked, gap) ↦ sym (recorded_anyway w m (ok some_account)) ∙ ap (λ r. r.1) asked
]

later_calls_refrain :
    (m : AccountManager) (t : ℕ) (ws : List World)
    → m.last_register_attempt ≡ some t
    → All (λ (w : World). (t ≤ w.now) × (w.now < t + m.cfg.register_cooldown)) ws
    → All (λ (w : World). ¬ Asks w m) ws
unfolding register_candidate
later_calls_refrain m t [] h a = tt
later_calls_refrain m t (w ∷ ws) h a = (
  λ asks. elim (prepare_reregister_cases (answering w (ok some_account)) m) [
    | inl (r, same) ↦ r _ (asks (ok some_account))
    | inr (asked, gap) ↦ omega (arith, gap t h, a.0)
  ],
  later_calls_refrain m t ws h a.1,
)

-- After a call that asked the API, whatever the API answered, no later call within the cooldown asks it, yields a
-- candidate or changes the manager.
pub cooldown_is_kept :
    (w : World) (m : AccountManager) (ws : List World)
    → Asks w m
    → All (λ (v : World). (w.now ≤ v.now) × (v.now < w.now + m.cfg.register_cooldown)) ws
    → All Refuses (prepare_all (prepare_reregister w m).1 ws).0
      × All (λ (v : World). ¬ Asks v (prepare_reregister w m).1) ws
      × ((prepare_all (prepare_reregister w m).1 ws).1 ≡ (prepare_reregister w m).1)
cooldown_is_kept w m ws asks a =
    let n : AccountManager = record m { last_register_attempt = some w.now } in
    let (refused, same) = quiet n w.now ws refl a in
    rw (asked_records w m asks) (refused, later_calls_refrain n w.now ws refl a, same)
