-- ===== src/Wait/Remove.antt =====
-- The list of entries after `wait_queue_remove`.
use punix.Base.{
  ℕ, ◌≡◌, refl, sym, ap, ◌∙◌, ◌≢◌, append-nil, Option, none, some, List, [], ◌∷◌, ◌++◌, update_self,
}
use punix.RunQueue.Linked.{NotIn, Distinct, last_of, last_of-cons}
use punix.Wait.{WaitQueue, Waits, set_next, set_prev, unlink, detach, remove}
use punix.Wait.Linked.{Entries, Links, IsWait, IsDetached}
use punix.Wait.Unlink.{Rewired, update-field, rewire, unlink-rewire, detach-Rewired}
use punix.Wait.Neighbours.{
  OptOut, first_of, last_or, start, OptOut-ne, OptOut-rest, NotIn-right, NotIn-left, Distinct-drop,
  first_of-ne, last_or-ne, next-first, last_of-append, last_or-none,
}

module _ (es es' : Entries) (q e : ℕ) (p n : Option ℕ) (r : Rewired es es' e p n) where
  rest :
      (prev cur : Option ℕ) (l : List ℕ)
      → NotIn e l
      → OptOut p l
      → OptOut n l
      → Links es q prev cur l
      → Links es' q prev cur l
  rest prev cur [] ne np nn c = c
  rest prev cur (x ∷ l) ne np nn c =
      let out : x ≢ e = λ ex. ne.0 (sym ex) in
      (
        c.0,
        r.prev_other x out (OptOut-ne n x l nn) ∙ c.1,
        r.queue x out ∙ c.2,
        rw (r.next_other x out (OptOut-ne p x l np))
            (rest (some x) (es x).next l ne.1 (OptOut-rest p x l np) (OptOut-rest n x l nn) c.3),
      )

  -- What follows the entry now follows its predecessor.
  after :
      (ys : List ℕ)
      → NotIn e ys
      → Distinct ys
      → OptOut p ys
      → Links es q (some e) n ys
      → Links es' q p n ys
  after [] ne d np c = c
  after (y ∷ ys) ne d np c =
      let out : y ≢ e = λ ey. ne.0 (sym ey) in
      (
        c.0,
        r.prev_at y out c.0,
        r.queue y out ∙ c.2,
        rw (r.next_other y out (OptOut-ne p y ys np))
            (rest (some y) (es y).next ys ne.1 (OptOut-rest p y ys np) (rw c.0 d.0) c.3),
      )

  whole :
      (prev cur : Option ℕ) (xs ys : List ℕ)
      → p ≡ last_or prev xs
      → n ≡ first_of ys
      → (es e).next ≡ n
      → Distinct (xs ++ (e ∷ ys))
      → OptOut prev (xs ++ (e ∷ ys))
      → Links es q prev cur (xs ++ (e ∷ ys))
      → Links es' q prev (start xs cur n) (xs ++ ys)
  whole prev cur [] ys ep en enext d o c =
      rw (← ep) (after ys d.0 d.1 (OptOut-rest p e ys (rw ep o)) (rw (← enext) c.3))
  whole prev cur (x ∷ []) ys ep en enext d o c =
      let out : x ≢ e = d.0.0 in
      (
        c.0,
        r.prev_other x out (λ ex. first_of-ne x ys d.0.1 (sym en ∙ ex)) ∙ c.1,
        r.queue x out ∙ c.2,
        rw (r.next_at x out ep) (whole (some x) (es x).next [] ys ep en enext d.1 d.0 c.3),
      )
  whole prev cur (x ∷ y ∷ xs) ys ep en enext d o c =
      let out : x ≢ e = (NotIn-right x (y ∷ xs) (e ∷ ys) d.0).0 in
      (
        c.0,
        r.prev_other x out
              (λ ex. first_of-ne x ys (NotIn-right x (y ∷ xs) (e ∷ ys) d.0).1 (sym en ∙ ex))
            ∙ c.1,
        r.queue x out ∙ c.2,
        rw
            (r.next_other x out (λ ex.
              last_or-ne x (some y) xs (λ ey. d.0.0 (cc)) (NotIn-left x xs (e ∷ ys) d.0.1)
                (sym ep ∙ ex)))
            (whole (some x) (es x).next (y ∷ xs) ys ep en enext d.1 d.0 c.3),
      )

set_next-tail :
    (s : Waits) (q : ℕ) (p n : Option ℕ) (x : ℕ)
    → ((set_next s q p n).queues x).tail ≡ (s.queues x).tail
set_next-tail s q none n x = update-field (λ (v : WaitQueue). v.tail) s.queues q x _ refl
set_next-tail s q (some p) n x = refl

set_prev-head :
    (s : Waits) (q : ℕ) (n p : Option ℕ) (x : ℕ)
    → ((set_prev s q n p).queues x).head ≡ (s.queues x).head
set_prev-head s q none p x = update-field (λ (v : WaitQueue). v.head) s.queues q x _ refl
set_prev-head s q (some n) p x = refl

rewire-head :
    (s : Waits) (q : ℕ) (p n : Option ℕ) (xs : List ℕ)
    → p ≡ last_of xs
    → ((rewire s q p n).queues q).head ≡ start xs (s.queues q).head n
rewire-head s q p n [] e = rw e (
    set_prev-head (set_next s q none n) q n none q
    ∙ ap (λ (v : WaitQueue). v.head) (update_self s.queues q _))
rewire-head s q p n (x ∷ xs) e =
    let (z, ez) = last_of-cons x xs in
    rw (e ∙ ez) (set_prev-head (set_next s q (some z) n) q n (some z) q)

rewire-tail :
    (s : Waits) (q e : ℕ) (p n : Option ℕ) (xs ys : List ℕ)
    → p ≡ last_of xs
    → n ≡ first_of ys
    → (s.queues q).tail ≡ last_of (xs ++ (e ∷ ys))
    → ((rewire s q p n).queues q).tail ≡ last_of (xs ++ ys)
rewire-tail s q e p n xs [] ep en et = rw en (
    ap (λ (v : WaitQueue). v.tail) (update_self (set_next s q p none).queues q _)
    ∙ ep
    ∙ ap last_of (sym (append-nil xs)))
rewire-tail s q e p n xs (y ∷ ys) ep en et = rw en (
    set_next-tail s q p (some y) q
    ∙ et
    ∙ last_of-append xs e (y ∷ ys)
    ∙ sym (last_of-append xs y ys))

remove-queued :
    (s : Waits) (q e : ℕ)
    → (s.entries e).queue ≡ some q
    → remove s (some e) ≡ detach (unlink s q e) e
unfolding remove
remove-queued s q e h = rw (h, remove) refl

-- `wait_queue_remove` takes an entry out of its queue, wherever it stands, and leaves the others in
-- their order; the entry is then in no queue. An entry in no queue is left alone.
pub remove_lem :
    (s : Waits) (q e : ℕ) (xs ys : List ℕ)
    → IsWait s q (xs ++ (e ∷ ys))
    → IsWait (remove s (some e)) q (xs ++ ys)
      × IsDetached ((remove s (some e)).entries e)
      × ((x : ℕ) → (s.entries x).queue ≡ none → remove s (some x) ≡ s)
unfolding remove
remove_lem s q e xs ys v =
    let p = last_or none xs in
    let n = first_of ys in
    let (en, ep, eq) = next-first s.entries q e none (s.queues q).head xs ys v.links in
    let out = last_or-ne e none xs (λ i. (cc)) (outside xs v.distinct) in
    let same = remove-queued s q e eq ∙ ap (λ w. detach w e) (unlink-rewire s q e p n ep en out) in
    rw same (
      record {
        links = rw (rewire-head s q p n xs (last_or-none xs)) (
            whole s.entries (detach (rewire s q p n) e).entries q e p n (detach-Rewired s q e p n)
              none (s.queues q).head xs ys refl refl en v.distinct tt v.links);
        tail = rewire-tail s q e p n xs ys (last_or-none xs) refl v.tail;
        distinct = Distinct-drop e xs ys v.distinct;
      },
      (rw update_self refl, rw update_self refl, rw update_self refl),
      λ x h. unfold remove in rw (h, remove) refl,
    )
  where
    outside : (xs : List ℕ) → Distinct (xs ++ (e ∷ ys)) → NotIn e xs
    outside [] d = tt
    outside (x ∷ xs) d = ((λ ex. (NotIn-right x xs (e ∷ ys) d.0).0 (sym ex)), outside xs d.1)
