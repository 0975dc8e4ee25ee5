-- ===== src/Events/Dispatch.antt =====
-- src/events.c: which handler a round of `ev_looping` calls.
use tcp_proxy.Prelude.{
  ℕ, ◌<◌, ◌≡◌, ◌≢◌, ◌∙◌, inl, inr, some, List, [], ◌∷◌, ◌++◌, arith, Option-cases,
}
use tcp_proxy.Prelude.Int.{ℤ}
use tcp_proxy.Events.{EventLoop, find_fd, looping}
use tcp_proxy.Events.Slots.{find_fd-some, find_fd-none}
use tcp_proxy.Events.Accounting.{Watches}

module _ {ℓ} {H A : Type ℓ} (s : EventLoop H A) where
  -- No slot below the end watches `fd`.
  abbrev pub Unwatched : ℤ → Type 0
  Unwatched fd = (k : ℕ) → k < s.max_events → s.fds k ≢ fd

  abbrev pub AllUnwatched : List ℤ → Type 0
  AllUnwatched [] = Unit {0}
  AllUnwatched (fd ∷ ready) = Unwatched fd × AllUnwatched ready

  looping-skip : (fd : ℤ) (ready : List ℤ) → Unwatched fd → looping s (fd ∷ ready) ≡ looping s ready
  unfolding looping
  looping-skip fd ready un = elim (Option-cases (find_fd s.fds fd s.max_events 0)) [
    | inl e ↦ rw (e, looping)
    | inr (i, e) ↦
        let (lo, hi, at) = find_fd-some s.fds fd s.max_events 0 i e in
        absurd (un i (omega arith) at)
  ]

  -- If a descriptor is watched in one slot only and no descriptor that `epoll_wait` reports before
  -- it is watched, `ev_looping` calls the handler of that slot with its descriptor and its argument,
  -- whatever is reported after it.
  pub looping-first :
      (i : ℕ) (fd : ℤ) (h : H) (a : A) (before after : List ℤ)
      → Watches s i fd h a
      → ((k : ℕ) → k < s.max_events → s.fds k ≡ fd → k ≡ i)
      → AllUnwatched before
      → looping s (before ++ fd ∷ after) ≡ some (i, fd, some h, some a)
  unfolding looping
  looping-first i fd h a [] after w only un =
      elim (Option-cases (find_fd s.fds fd s.max_events 0)) [
        | inl e ↦
            absurd (find_fd-none s.fds fd s.max_events 0 i e (omega arith) (omega arith) w.fd_is)
        | inr (j, e) ↦
            let (lo, hi, at) = find_fd-some s.fds fd s.max_events 0 j e in
            rw (e, looping, only j (omega arith) at, w.fd_is, w.handler_is, w.arg_is)
      ]
  looping-first i fd h a (other ∷ before) after w only un =
      looping-skip other (before ++ fd ∷ after) un.0
      ∙ looping-first i fd h a before after w only un.1
