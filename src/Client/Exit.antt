-- ===== src/Client/Exit.antt =====
-- remote_exit of src/rcrpc-client/rcrpc-client.c and its thread, in any order of their steps.
use rcrpc.Base.{
  ℕ, ◌+◌, ◌≤◌, ◌<◌, ◌≡◌, ◌≢◌, refl, sym, subst, ap, ◌∙◌, pos, arith, Bool, true, false, ℤ, inl, inr,
  ◌⊎◌,
}
use rcrpc.Client.Poll.{
  ThreadAt, at_test, at_poll, at_events, thread_ended, CallerAt, before_exit, at_join, at_free,
  exited, Shared, done_after, after_poll, ThreadStep, go_on, stop, poll, events, CallerStep,
  set_done, join, free, Run, here, by_thread, by_caller, started,
}

-- Where the caller is, `done` and the memory fit together: behind the join the thread has ended, the
-- memory is released at the end, and `done` stays set from the first step of remote_exit on.
abbrev Fits : CallerAt → ThreadAt → Bool → Bool → Type 0
Fits before_exit thread done released = released ≡ false
Fits at_join thread done released = (done ≡ true) × (released ≡ false)
Fits at_free thread done released = (thread ≡ thread_ended) × (done ≡ true) × (released ≡ false)
Fits exited thread done released = (thread ≡ thread_ended) × (done ≡ true) × (released ≡ true)

abbrev IsFit : Shared → Type 0
IsFit s = Fits s.caller s.thread s.done s.released

done_after-true : (ret : ℤ) → done_after ret true ≡ true
unfolding done_after
done_after-true ret = ground arith

at_test≢thread_ended : at_test ≢ thread_ended
at_test≢thread_ended e = cc e

at_poll≢thread_ended : at_poll ≢ thread_ended
at_poll≢thread_ended e = cc e

at_events≢thread_ended : at_events ≢ thread_ended
at_events≢thread_ended e = cc e

-- A thread that has not ended may go anywhere, if it leaves `done` set.
moved_Fits :
    (c : CallerAt) (t t' : ThreadAt) (d d' r : Bool)
    → t ≢ thread_ended
    → (d ≡ true → d' ≡ true)
    → Fits c t d r
    → Fits c t' d' r
moved_Fits before_exit t t' d d' r e h f = f
moved_Fits at_join t t' d d' r e h f = (h f.0, f.1)
moved_Fits at_free t t' d d' r e h f = absurd (e f.0)
moved_Fits exited t t' d d' r e h f = absurd (e f.0)

-- Where the thread stands while it takes a step.
from_here : {t u : ThreadAt} → t ≡ u → u ≢ thread_ended → t ≢ thread_ended
from_here e n h = n (sym e ∙ h)

ThreadStep-IsFit : {s t : Shared} → ThreadStep s t → IsFit s → IsFit t
ThreadStep-IsFit (go_on s e d) f =
    moved_Fits s.caller _ _ _ _ _ (from_here e at_test≢thread_ended) (λ h. h) f
ThreadStep-IsFit (stop s e d) f =
    moved_Fits s.caller _ _ _ _ _ (from_here e at_test≢thread_ended) (λ h. h) f
ThreadStep-IsFit (poll s ret e) f =
    moved_Fits s.caller _ _ _ _ _ (from_here e at_poll≢thread_ended)
      (λ h. rw h (done_after-true ret)) f
ThreadStep-IsFit (events s ret e) f =
    moved_Fits s.caller _ _ _ _ _ (from_here e at_events≢thread_ended) (λ h. h) f

CallerStep-IsFit : {s t : Shared} → CallerStep s t → IsFit s → IsFit t
CallerStep-IsFit (set_done s e) f = (refl, subst (λ c. Fits c s.thread s.done s.released) e f)
CallerStep-IsFit (join s e d) f =
    let (o, r) = subst (λ c. Fits c s.thread s.done s.released) e f in (d, o, r)
CallerStep-IsFit (free s e) f =
    let (d, o, r) = subst (λ c. Fits c s.thread s.done s.released) e f in (d, o, refl)

Run-IsFit : {s t : Shared} {n : ℕ} → IsFit s → Run s n t → IsFit t
Run-IsFit f here = f
Run-IsFit f (by_thread r st) = ThreadStep-IsFit st (Run-IsFit f r)
Run-IsFit f (by_caller r st) = CallerStep-IsFit st (Run-IsFit f r)

-- How many steps are left at most to the thread when `done` is set, and to the caller.
abbrev thread_rank : ThreadAt → ℕ
thread_rank at_test = 1
thread_rank at_events = 2
thread_rank at_poll = 3
thread_rank thread_ended = 0

abbrev caller_rank : CallerAt → ℕ
caller_rank before_exit = 3
caller_rank at_join = 2
caller_rank at_free = 1
caller_rank exited = 0

abbrev rank : Shared → ℕ
rank s = thread_rank s.thread + caller_rank s.caller

thread_rank-after_poll : (ret : ℤ) → thread_rank (after_poll ret) ≤ 2
thread_rank-after_poll ret = ground arith

false≢true : false ≢ true
false≢true e = cc e

ThreadStep-rank : {s t : Shared} → ThreadStep s t → s.done ≡ true → rank t < rank s
ThreadStep-rank (go_on s e d) o = absurd (false≢true (sym d ∙ o))
ThreadStep-rank (stop s e d) o = rw e (omega arith)
ThreadStep-rank (poll s ret e) o = rw e (omega (arith, thread_rank-after_poll ret))
ThreadStep-rank (events s ret e) o = rw e (omega arith)

CallerStep-rank : {s t : Shared} → CallerStep s t → rank t < rank s
CallerStep-rank (set_done s e) = rw e (omega arith)
CallerStep-rank (join s e d) = rw e (omega arith)
CallerStep-rank (free s e) = rw e (omega arith)

-- Whether remote_exit was called.
abbrev pub is_exiting : CallerAt → Bool
is_exiting before_exit = false
is_exiting _ = true

done_set :
    (c : CallerAt) (t : ThreadAt) (d r : Bool) → is_exiting c ≡ true → Fits c t d r → d ≡ true
done_set before_exit t d r h f = absurd (false≢true h)
done_set at_join t d r h f = f.0
done_set at_free t d r h f = f.1
done_set exited t d r h f = f.1

ThreadStep-caller : {s t : Shared} → ThreadStep s t → t.caller ≡ s.caller
ThreadStep-caller (go_on s e d) = refl
ThreadStep-caller (stop s e d) = refl
ThreadStep-caller (poll s ret e) = refl
ThreadStep-caller (events s ret e) = refl

CallerStep-is_exiting : {s t : Shared} → CallerStep s t → is_exiting t.caller ≡ true
CallerStep-is_exiting (set_done s e) = refl
CallerStep-is_exiting (join s e d) = refl
CallerStep-is_exiting (free s e) = refl

-- A run from inside remote_exit stays there, and each step takes one from the rank.
Run-rank :
    {s t : Shared} {n : ℕ}
    → IsFit s
    → is_exiting s.caller ≡ true
    → Run s n t
    → (is_exiting t.caller ≡ true) × (n + rank t ≤ rank s)
Run-rank f x here = (x, omega arith)
Run-rank {s} f x (by_thread r st) =
    let (x', h) = Run-rank f x r in
    let done = done_set _ _ _ _ x' (Run-IsFit f r) in
    (ap is_exiting (ThreadStep-caller st) ∙ x', omega (arith, ThreadStep-rank st done))
Run-rank {s} f x (by_caller r st) =
    let (x', h) = Run-rank f x r in (CallerStep-is_exiting st, omega (arith, CallerStep-rank st))

step_at :
    (s : Shared) (c : CallerAt) (t : ThreadAt)
    → s.caller ≡ c
    → s.thread ≡ t
    → is_exiting c ≡ true
    → s.done ≡ true
    → (s.caller ≡ exited) ⊎ ((u : Shared) × (ThreadStep s u ⊎ CallerStep s u))
step_at s before_exit t e h x d = absurd (false≢true x)
step_at s at_join at_test e h x d = inr (_, inl (stop s h d))
step_at s at_join at_poll e h x d = inr (_, inl (poll s (pos 0) h))
step_at s at_join at_events e h x d = inr (_, inl (events s (pos 0) h))
step_at s at_join thread_ended e h x d = inr (_, inr (join s e h))
step_at s at_free t e h x d = inr (_, inr (free s e))
step_at s exited t e h x d = inl e

thread_rank_bound : (t : ThreadAt) → thread_rank t ≤ 3
thread_rank_bound t = ground arith

caller_rank_bound : (c : CallerAt) → is_exiting c ≡ true → caller_rank c ≤ 2
caller_rank_bound c x = ground arith

-- However the steps of the thread and of remote_exit mix, from any moment at which remote_exit has
-- begun: no more than five steps follow, and until remote_exit has returned one of the two can take
-- a step. So the thread stops and remote_exit returns.
pub remote_exit_terminates :
    {s : Shared} {n : ℕ}
    → Run started n s
    → is_exiting s.caller ≡ true
    → ((m : ℕ) (t : Shared) → Run s m t → m ≤ 5)
      × ((s.caller ≡ exited) ⊎ ((t : Shared) × (ThreadStep s t ⊎ CallerStep s t)))
remote_exit_terminates {s} r x = (
  λ m t r'. omega (
    arith,
    (Run-rank (Run-IsFit refl r) x r').1,
    thread_rank_bound s.thread,
    caller_rank_bound s.caller x,
  ),
  step_at s s.caller s.thread refl refl x (done_set _ _ _ _ x (Run-IsFit refl r)),
)

released_ended :
    (c : CallerAt) (t : ThreadAt) (d r : Bool) → Fits c t d r → r ≡ true → t ≡ thread_ended
released_ended before_exit t d r f h = absurd (false≢true (sym f ∙ h))
released_ended at_join t d r f h = absurd (false≢true (sym f.1 ∙ h))
released_ended at_free t d r f h = f.0
released_ended exited t d r f h = f.0

ThreadStep-thread : {s t : Shared} → ThreadStep s t → s.thread ≢ thread_ended
ThreadStep-thread (go_on s e d) = from_here e at_test≢thread_ended
ThreadStep-thread (stop s e d) = from_here e at_test≢thread_ended
ThreadStep-thread (poll s ret e) = from_here e at_poll≢thread_ended
ThreadStep-thread (events s ret e) = from_here e at_events≢thread_ended

-- However the steps of the thread and of remote_exit mix, once the memory of the client is released
-- the thread has ended: it takes no step on released memory.
pub remote_exit-released :
    {s : Shared} {n : ℕ}
    → Run started n s
    → s.released ≡ true
    → (s.thread ≡ thread_ended) × ((t : Shared) → ¬ ThreadStep s t)
remote_exit-released {s} r h =
    let ended = released_ended s.caller _ _ _ (Run-IsFit refl r) h in
    (ended, λ t st. ThreadStep-thread st ended)
