-- ===== src/Children/AnyChild.antt =====
-- `sched_waitpid` of kernel/core/sched.c for any child, with or without WNOHANG.
use punix.Base.{
  ℕ, ◌/◌, ◌<◌, ◌≡◌, ◌≢◌, ◌⊎◌, inl, inr, refl, ap, subst, ◌∙◌, arith, Option, none, some, List, [],
  ◌∷◌, ◌++◌, length, length-append, Bool, true, false, not, ◌||◌, Bool-cases, if-true, if-false,
  eq→==, ==_iff, ◌==◌, ◌>>=◌,
}
use punix.Base.Int.{pos, negsuc}
use punix.Task.{Task}
use punix.Sched.{Sched}
use punix.Children.{is_zombie, find_zombie_child}
use punix.Children.Search.{AllFail, IsFirst, find_child_by_pid-find_zombie_child}
use punix.Children.Waitpid.{
  Waiting, Progress, Reply, no_child, choose_any, choose, finish_wait, waitpid,
}
use punix.Children.Reap.{IsFamily, Reaped, reap_lem}

abbrev zombie : Task → Bool
zombie t = is_zombie t.state

-- What becomes of a call: there is no child, no child has exited, or the first that has is reaped.
abbrev pub Waited : Sched → ℕ → List ℕ → ℕ → Option Progress → Type 0
Waited s parent l options r =
    ((l ≡ []) × (r ≡ some (Progress.returns (no_child, none, s))))
    ⊎ (((l ≢ [])
          × AllFail zombie s.table.tasks l
          × (((options ≡ 1) × (r ≡ some (Progress.returns (pos 0, none, s))))
              ⊎ ((options ≡ 0) × (r ≡ some (Progress.blocks Waiting.waits_any s)))))
        ⊎ ((before after : List ℕ) × (z : ℕ) × (s' : Sched) × (l ≡ before ++ (z ∷ after))
            × AllFail zombie s.table.tasks before
            × (zombie (s.table.tasks z) ≡ true)
            × (r
                ≡ some (
                    Progress.returns
                      ((s.table.tasks z).pid, some (s.table.tasks z).exit_status, s')))
            × Reaped s s' parent z (before ++ after)))

module _ (fuel : ℕ) (s : Sched) (parent options : ℕ) (small : options < 2) where
  abbrev call : Option Progress
  call = waitpid fuel s parent (negsuc 0) (pos options)

  start :
      (r : Option ℕ)
      → find_zombie_child fuel s.table.tasks parent ≡ some r
      → call ≡ choose_any (s.table.tasks parent).children options r >>= finish_wait fuel s parent
  unfolding waitpid choose
  start r e =
      let no_bits : (not (options / 2 == 0) || false) ≡ false =
        ap (λ b. not b || false) (eq→== (options / 2) 0 (omega arith)) in
      ap (λ o. o >>= finish_wait fuel s parent)
        (if-false (not (options / 2 == 0) || false) _ _ no_bits
          ∙ ap (λ o. o >>= choose_any (s.table.tasks parent).children options) e)

  on_none :
      (c : Option ℕ)
      → find_zombie_child fuel s.table.tasks parent ≡ some none
      → (s.table.tasks parent).children ≡ c
      → call ≡ choose_any c options none >>= finish_wait fuel s parent
  on_none c e h = start none e ∙ ap (λ p. choose_any p options none >>= finish_wait fuel s parent) h

  no_zombie :
      (l : List ℕ)
      → IsFamily s parent l
      → find_zombie_child fuel s.table.tasks parent ≡ some none
      → AllFail zombie s.table.tasks l
      → Waited s parent l options call
  no_zombie [] f e fails = inl (refl, on_none none e f.siblings)
  no_zombie (x ∷ xs) f e fails =
      let before = on_none (some x) e f.siblings.0 in
      elim (Bool-cases (options == 1)) [
        | inl t ↦ inr (
            inl (
              λ q. cc,
              fails,
              inl (
                (==_iff options 1).0 t,
                before ∙ ap (λ o. o >>= finish_wait fuel s parent) (if-true _ _ _ t),
              ),
            ))
        | inr n ↦ inr (
            inl (
              λ q. cc,
              fails,
              inr (
                ground (arith, n),
                before ∙ ap (λ o. o >>= finish_wait fuel s parent) (if-false _ _ _ n),
              ),
            ))
      ]

  one_zombie :
      (l before after : List ℕ) (z : ℕ)
      → IsFamily s parent l
      → length l < fuel
      → find_zombie_child fuel s.table.tasks parent ≡ some (some z)
      → l ≡ before ++ (z ∷ after)
      → AllFail zombie s.table.tasks before
      → zombie (s.table.tasks z) ≡ true
      → Waited s parent l options call
  one_zombie l before after z f h e split fails is =
      let enough : length before < fuel =
        omega (arith, h, ap length split, length-append before (z ∷ after)) in
      let (s', er, reaped) =
        reap_lem fuel s parent z before after (subst (IsFamily s parent) split f) enough in
      inr (
        inr (
          before,
          after,
          z,
          s',
          split,
          fails,
          is,
          start (some z) e
              ∙ ap (λ (o : Option Reply). o >>= (λ reply. some (Progress.returns reply))) er,
          reaped,
        ))

  -- `sched_waitpid` for any child, with WNOHANG or no option, on a running task whose children are a
  -- list of tasks in use, given more fuel than there are children. Without a child it returns
  -- -ECHILD; if none has exited it returns 0 with WNOHANG, and else waits; else the first that has
  -- exited is reaped: its pid is returned and its exit status stored, it is freed, its siblings stay
  -- in the list in their order, and the other tasks keep all but the links of the list.
  pub waitpid-any :
      (l : List ℕ) → IsFamily s parent l → length l < fuel → Waited s parent l options call
  waitpid-any l f h =
      let (r, e, first) =
        (find_child_by_pid-find_zombie_child fuel s.table.tasks parent (pos 0) l h f.siblings).1 in
      result r e first
    where
      result :
          (r : Option ℕ)
          → find_zombie_child fuel s.table.tasks parent ≡ some r
          → IsFirst zombie s.table.tasks l r
          → Waited s parent l options call
      result none e first = no_zombie l f e first
      result (some z) e (before, after, split, fails, is) =
          one_zombie l before after z f h e split fails is
