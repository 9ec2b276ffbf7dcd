-- ===== src/Pubsub/Server/Main.antt =====
-- A round of `main` of server.cpp with what ends the process: a `send` that fails, and a descriptor
-- that `FD_SET` has no room for.
pub mod Soundness
use teme_pcom_anul_2_sem.Prelude.{
  ℕ, suc, Bool, true, false, List, [], ◌∷◌, ◌&&◌, ltb, if◌then◌else◌,
}
use teme_pcom_anul_2_sem.Pubsub.Server.State.{
  Server, Effect, send, Result, ok, fault, overrun, ◌>>=◌, FdSet,
}
use teme_pcom_anul_2_sem.Pubsub.Server.Loop.{Env, Round, exited, continued, round}

-- `FD_SETSIZE`
abbrev pub fd_setsize : ℕ
fd_setsize = 1024

abbrev pub is_send : Effect → Bool
is_send (send fd payload) = true
is_send _ = false

-- What is done up to the first `send` that fails, whether `send` at position `k` does so being
-- `fails k`, and whether none fails. DIE ends the process at that one.
unfoldable pub delivered : (ℕ → Bool) → List Effect → List Effect × Bool
delivered fails [] = ([], true)
delivered fails (e ∷ es) =
    let rest = delivered (λ k. fails (suc k)) es in
    if is_send e && fails 0 then ([], false) else (e ∷ rest.0, rest.1)

-- `round`, in which `send` may fail. FD_SET of a descriptor from FD_SETSIZE on writes behind the
-- set, and then it is no greater than `fdmax`.
unfoldable pub main_round : (ℕ → Bool) → ℕ → Env → FdSet → List ℕ → Server → Result Round
unfolding delivered
main_round fails fuel env ready stdin s = do
  r ← round fuel env ready stdin s
  elim r [
    | exited es ↦ ok (exited es)
    | continued s' es ↦
        let sent = delivered fails es in
        if ltb s'.fdmax fd_setsize
        then (if sent.1 then ok (continued s' es) else ok (exited sent.0))
        else fault overrun
  ]
