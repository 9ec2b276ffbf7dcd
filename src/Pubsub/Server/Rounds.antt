-- ===== src/Pubsub/Server/Rounds.antt =====
-- Whole rounds of the loop of server.cpp: they end within their fuel, without a fault, in a state
-- of the invariant.
use teme_pcom_anul_2_sem.Prelude.{
  ℕ, zero, suc, ◌+◌, ◌≡◌, ◌≢◌, ◌≤◌, ◌<◌, ◌⊎◌, List, [], ◌∷◌, ◌++◌, Bool, true, false, arith,
  Bool-cases, inl, inr, leb, ◌==◌, ◌&&◌, if◌then◌else◌, codes, max, ap, subst, ◌∙◌, sym,
}
use teme_pcom_anul_2_sem.Dict.{lookup}
use teme_pcom_anul_2_sem.Pubsub.Server.State.{Server, Effect, Result, print_error, ok, FdSet}
use teme_pcom_anul_2_sem.Pubsub.Server.Sessions.{close_all}
use teme_pcom_anul_2_sem.Pubsub.Server.Loop.{
  Env, Outcome, handle, handle_fds, is_exit, Round, exited, continued, round, set_sockets, start,
}
use teme_pcom_anul_2_sem.Pubsub.Server.Invariant.{Inv}
use teme_pcom_anul_2_sem.Pubsub.Server.Preservation.{
  IsSane, IsFresh, Keeps, Handles, handle_datagram-Handles, handle_connection-Handles,
  handle_client-Handles,
}

module _ (env : Env) (sane : IsSane env) where
  -- The handler of a watched descriptor keeps the invariant.
  pub handle-Handles :
      (s : Server) (i : ℕ)
      → Inv s
      → (i ≡ s.tcp_sockfd → IsFresh env s)
      → s.read_fds i ≡ true
      → i ≢ 0
      → i ≢ env.accepted
      → Handles env s i (handle env s i)
  unfolding handle
  handle-Handles s i inv fresh ready positive other = elim (Bool-cases (i == s.udp_sockfd)) [
    | inl udp ↦ rw udp (handle_datagram-Handles env s i sane.datagram.0 sane.datagram.1 inv)
    | inr not_udp ↦ elim (Bool-cases (i == s.tcp_sockfd)) [
      | inl tcp ↦
          rw (not_udp, tcp)
            (handle_connection-Handles env s i inv sane (fresh (ground arith)) (ground arith))
      | inr not_tcp ↦
          rw (not_udp, not_tcp)
            (handle_client-Handles env s i inv sane ready
              (record { not_stdin = positive; not_tcp = ground arith; not_udp = ground arith })
              other)
    ]
  ]

  module _ (ready : FdSet) (not_accepted : ready env.accepted ≡ false) (bound : ℕ)
      (accepted_bound : env.accepted ≤ bound) where
    -- What the inner loop may rely on when it comes to the descriptor `i`.
    record Loops (i : ℕ) (s : Server) : Type 0 where
      inv : Inv s
      fresh : i ≤ s.tcp_sockfd → IsFresh env s
      watched : (j : ℕ) → i ≤ j → ready j ≡ true → s.read_fds j ≡ true
      positive : 0 < i
      below : s.fdmax ≤ bound
      within : i ≤ bound + 1

    Loops-skip : (i : ℕ) (s : Server) → i ≤ s.fdmax → Loops i s → Loops (i + 1) s
    Loops-skip i s h l = record {
      inv = l.inv;
      fresh = λ p. l.fresh (omega arith);
      watched = λ j p r. l.watched j (omega arith) r;
      positive = omega arith;
      below = l.below;
      within = omega (arith, l.below);
    }

    Loops-handled :
        (i : ℕ) (s s' : Server) → i ≤ s.fdmax → Loops i s → Keeps env s i s' → Loops (i + 1) s'
    Loops-handled i s s' h l k = record {
      inv = k.inv;
      fresh = λ p.
          let f = l.fresh (omega (arith, k.tcp)) in
          record {
            unwatched = λ w. ground (arith, k.gained env.accepted w, f.unwatched, k.tcp);
            client = record {
              not_stdin = f.client.not_stdin;
              not_tcp = λ e. f.client.not_tcp (e ∙ k.tcp);
              not_udp = λ e. f.client.not_udp (e ∙ k.udp);
            };
          };
      watched = λ j p r. k.still j (λ e. omega arith) (l.watched j (omega arith) r);
      positive = omega arith;
      below = omega (arith, k.below, l.below);
      within = omega (arith, l.below);
    }

    -- The inner loop ends normally, and its last state keeps the invariant.
    abbrev Ends : Outcome → Type 0
    Ends o = (s' : Server) × (es : List Effect) × (o ≡ ok (s', es)) × Inv s' × (s'.fdmax ≤ bound)

    handle_fds-Ends :
        (fuel i : ℕ) (s : Server)
        → bound + 2 ≤ i + fuel
        → Loops i s
        → Ends (handle_fds fuel env ready i s)
    unfolding handle_fds
    handle_fds-Ends zero i s enough l = absurd (omega (arith, l.within))
    handle_fds-Ends (suc fuel) i s enough l = elim (Bool-cases (leb i s.fdmax)) [
      | inr over ↦ (s, [], rw over, l.inv, l.below)
      | inl more ↦ elim (Bool-cases (ready i)) [
        | inr quiet ↦
            let (s', es, e, inv, small) =
              handle_fds-Ends fuel (i + 1) s (omega arith) (Loops-skip i s (ground arith) l) in
            (s', [] ++ es, ground arith, inv, small)
        | inl due ↦
            let (s', es, e, k) =
              handle-Handles s i l.inv (λ p. l.fresh (omega arith)) (l.watched i (omega arith) due)
                (λ z. omega (arith, l.positive)) (λ z. ground (arith, ap ready z)) in
            let (s'', later, f, inv, small) =
              handle_fds-Ends fuel (i + 1) s' (omega arith)
                (Loops-handled i s s' (ground arith) l k) in
            (s'', es ++ later, ground arith, inv, small)
      ]
    ]

-- What `select` and `accept` promise of a round, and fuel for every descriptor that may be open.
pub record Admits (env : Env) (ready : FdSet) (s : Server) (fuel : ℕ) : Type 0 where
  pub sane : IsSane env
  pub fresh : IsFresh env s
  pub watched : (j : ℕ) → ready j ≡ true → s.read_fds j ≡ true
  pub enough : max s.fdmax env.accepted < fuel

module _ {env : Env} {ready : FdSet} {s : Server} {fuel : ℕ} (ad : Admits env ready s fuel) where
  not_accepted : ready env.accepted ≡ false
  not_accepted = elim (Bool-cases (ready env.accepted)) [
    | inr quiet ↦ quiet
    | inl due ↦ absurd (ad.fresh.unwatched (ad.watched env.accepted due))
  ]

  effects_of : Bool → List Effect → List Effect
  effects_of b es = (if b then print_error (codes "Unknown command.") ∷ [] else []) ++ es

  -- In a state of the invariant, with the readiness and fresh descriptor that select and accept
  -- promise, topics that end inside their structures, requests that fit theirs and fuel above
  -- every descriptor, a round of the server's main loop ends without a fault: it exits, or goes on
  -- in a state of the invariant, with fdmax no more than before or than the fresh descriptor.
  pub round-Inv :
      (stdin : List ℕ)
      → Inv s
      → ((es : List Effect) × (round fuel env ready stdin s ≡ ok (exited es)))
        ⊎ ((s' : Server) × (es : List Effect) × (round fuel env ready stdin s
              ≡ ok (continued s' es))
            × Inv s'
            × (s'.fdmax ≤ max s.fdmax env.accepted))
  unfolding round effects_of
  round-Inv stdin inv = elim (Bool-cases (ready 0 && is_exit stdin)) [
    | inl exit ↦ inl (close_all s.read_fds s.tcp_sockfd s.udp_sockfd s.fdmax, rw exit)
    | inr on ↦
        let bound = max s.fdmax env.accepted in
        let (s', es, e, inv', small) =
          handle_fds-Ends env ad.sane ready not_accepted bound (omega arith) fuel 1 s
            (omega (arith, ad.enough))
            (record {
              inv = inv;
              fresh = λ p. ad.fresh;
              watched = λ j p r. ad.watched j r;
              positive = omega arith;
              below = omega arith;
              within = omega arith;
            }) in
        inr (s', effects_of (ready 0) es, rw (on, e), inv', small)
  ]

-- The states of a run of the server.
pub data Reach : Server → Type 0 where
  starts : (tcp udp : ℕ) → Reach (start tcp udp)
  rounds :
      {s t : Server} (env : Env) (ready : FdSet) (stdin : List ℕ) (fuel : ℕ) (es : List Effect)
      → Reach s
      → Admits env ready s fuel
      → round fuel env ready stdin s ≡ ok (continued t es)
      → Reach t

start-Inv : (tcp udp : ℕ) → Inv (start tcp udp)
unfolding start set_sockets lookup
start-Inv tcp udp = record {
  clients = record {
    ordered = tt;
    ordered_saved = tt;
    named = λ k c h. cc;
    idle = λ k c h. cc;
    apart = λ k c h. cc;
    stored = λ k c h. cc;
    keeps = λ k c h e. cc;
  };
  topics = record { ordered = λ t m h. cc; named = λ t m k c h e. cc };
  sockets = record {
    watched = λ k c h. cc;
    apart = λ k c h. cc;
    owned = λ fd w own. absurd (ground (arith, own.not_stdin, own.not_tcp, own.not_udp));
    distinct = λ j k c d h i e. cc;
    bound = λ fd w. ground arith;
  };
}

ended :
    {es es' : List Effect} {t : Server}
    → ¬ (◌≡◌ {A = Result Round} (ok (exited es)) (ok (continued t es')))
ended e = cc

same_state :
    {es es' : List Effect} {s t : Server}
    → ◌≡◌ {A = Result Round} (ok (continued s es)) (ok (continued t es'))
    → s ≡ t
same_state e = cc

-- Every state that the server reaches from its start keeps the invariant: maps in key order,
-- clients under their own names, nobody both connected and stored, connected clients with empty
-- queues, and the watched descriptors exactly the distinct sockets of connected clients.
pub Reach-Inv : {s : Server} → Reach s → Inv s
Reach-Inv (starts tcp udp) = start-Inv tcp udp
Reach-Inv (rounds {t} env ready stdin fuel es r ad e) = elim (round-Inv ad stdin (Reach-Inv r)) [
  | inl (es', f) ↦ absurd (ended (sym f ∙ e))
  | inr (s', es', f, inv, small) ↦ subst Inv (same_state (sym f ∙ e)) inv
]
