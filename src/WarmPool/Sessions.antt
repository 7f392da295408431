-- ===== src/WarmPool/Sessions.antt =====
-- What the pool's methods do to the number of sessions.
use nexus_ide.Common.{ℕ, ◌+◌, ◌-◌, ◌≡◌, ◌∙◌, List, [], ◌∷◌, arith}
use nexus_ide.WarmPool.{
  WarmPool, loop_test, fill_terminal_pool, adjust_terminal_pool_size, take_first,
  pop_terminal_container, release_terminal_container,
}

adjust_sessions :
    (p : WarmPool)
    → (adjust_terminal_pool_size p).active_terminal_sessions ≡ p.active_terminal_sessions
unfolding adjust_terminal_pool_size fill_terminal_pool loop_test
adjust_sessions p = ground arith

take_sessions :
    (p : WarmPool) (l : List ℕ)
    → (take_first p l).active_terminal_sessions ≡ p.active_terminal_sessions
unfolding take_first fill_terminal_pool loop_test
take_sessions p [] = ground arith
take_sessions p (c ∷ rest) = ground arith

pub pop_sessions :
    (p : WarmPool)
    → (pop_terminal_container p).active_terminal_sessions ≡ p.active_terminal_sessions + 1
unfolding pop_terminal_container
pop_sessions p =
    let q = record p { active_terminal_sessions = p.active_terminal_sessions + 1 } in
    take_sessions (adjust_terminal_pool_size q) (adjust_terminal_pool_size q).terminal_pool
    ∙ adjust_sessions q

pub release_sessions :
    (p : WarmPool)
    → (release_terminal_container p).active_terminal_sessions ≡ p.active_terminal_sessions - 1
unfolding release_terminal_container
release_sessions p = ground (
  arith,
  adjust_sessions (record p { active_terminal_sessions = p.active_terminal_sessions - 1 }),
)
