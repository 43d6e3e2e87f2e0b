-- ===== src/Wait/Linked.antt =====
-- Wait queues as lists of entries, and the insertion at the end.
use punix.Base.{
  ℕ, ◌≡◌, refl, sym, ap, ◌∙◌, Option, none, some, List, [], ◌∷◌, ◌++◌, update, update_self,
  update_ne,
}
use punix.RunQueue.Linked.{
  NotIn, Distinct, last_of, last_of-cons, last_of-snoc, NotIn-last, Distinct-snoc,
}
use punix.Wait.{Entry, Waits, place, link, add}

abbrev pub Entries : Type 0
Entries = ℕ → Entry

-- From `cur`, whose predecessor is `prev`, the entries lead through the list and end there.
abbrev pub Links : Entries → ℕ → Option ℕ → Option ℕ → List ℕ → Type 0
Links es q prev cur [] = cur ≡ none
Links es q prev cur (x ∷ xs) =
    (cur ≡ some x)
    × ((es x).prev ≡ prev)
    × ((es x).queue ≡ some q)
    × Links es q (some x) (es x).next xs

-- The queue at address `q` holds exactly the entries of the list, in this order, each once.
pub record IsWait (s : Waits) (q : ℕ) (l : List ℕ) : Type 0 where
  pub links : Links s.entries q none (s.queues q).head l
  pub tail : (s.queues q).tail ≡ last_of l
  pub distinct : Distinct l

-- The entry is in no queue.
abbrev pub IsDetached : Entry → Type 0
IsDetached e = (e.queue ≡ none) × (e.prev ≡ none) × (e.next ≡ none)

pub Links-update :
    (es : Entries) (q e : ℕ) (v : Entry) (prev cur : Option ℕ) (l : List ℕ)
    → NotIn e l
    → Links es q prev cur l
    → Links (update es e v) q prev cur l
Links-update es q e v prev cur [] n c = c
Links-update es q e v prev cur (x ∷ xs) n c =
    let same = update_ne es e x v (λ ex. n.0 (sym ex)) in
    (
      c.0,
      ap (λ (y : Entry). y.prev) same ∙ c.1,
      ap (λ (y : Entry). y.queue) same ∙ c.2,
      rw same (Links-update es q e v (some x) (es x).next xs n.1 c.3),
    )

-- The new entry `e`, which points back to the last one `z`, is linked behind it.
Links-snoc :
    (es : Entries) (q z e : ℕ) (prev cur : Option ℕ) (l : List ℕ)
    → Distinct l
    → NotIn e l
    → Links es q prev cur l
    → last_of l ≡ some z
    → (es e).prev ≡ some z
    → (es e).queue ≡ some q
    → (es e).next ≡ none
    → Links (update es z (record (es z) { next = some e })) q prev cur (l ++ (e ∷ []))
Links-snoc es q z e prev cur [] d n c ez ep eq en = absurd (cc)
Links-snoc es q z e prev cur (x ∷ []) d n c ez ep eq en =
    let same : z ≡ x = cc in
    rw same (
      c.0,
      rw update_self c.1,
      rw update_self c.2,
      (
        rw update_self refl,
        rw (update_ne es x e _ n.0) (ep ∙ ap some same),
        rw (update_ne es x e _ n.0) eq,
        rw (update_ne es x e _ n.0) en,
      ),
    )
Links-snoc es q z e prev cur (x ∷ y ∷ ys) d n c ez ep eq en =
    let same =
      update_ne es z x (record (es z) { next = some e }) (NotIn-last x (y ∷ ys) z d.0 ez) in
    (
      c.0,
      ap (λ (y : Entry). y.prev) same ∙ c.1,
      ap (λ (y : Entry). y.queue) same ∙ c.2,
      rw same (Links-snoc es q z e (some x) (es x).next (y ∷ ys) d.1 n.1 c.3 ez ep eq en),
    )

link-IsWait :
    (s : Waits) (q e : ℕ) (l : List ℕ)
    → IsWait s q l
    → NotIn e l
    → IsWait (link s q e (s.queues q).tail) q (l ++ (e ∷ []))
link-IsWait s q e [] v n = rw v.tail (record {
  links = (rw update_self refl, rw update_self refl, rw update_self refl, rw update_self refl);
  tail = rw update_self refl;
  distinct = (tt, tt);
})
link-IsWait s q e (x ∷ xs) v n =
    let (z, ez) = last_of-cons x xs in
    let same = update_self s.entries e _ in
    rw (v.tail ∙ ez) (record {
      links = rw update_self (
          Links-snoc (place s q e (some z)).entries q z e none (s.queues q).head (x ∷ xs) v.distinct
            n (Links-update s.entries q e _ none (s.queues q).head (x ∷ xs) n v.links) ez
            (ap (λ (y : Entry). y.prev) same) (ap (λ (y : Entry). y.queue) same)
            (ap (λ (y : Entry). y.next) same));
      tail = rw update_self (sym (last_of-snoc (x ∷ xs) e));
      distinct = Distinct-snoc e (x ∷ xs) v.distinct n;
    })

-- `wait_queue_add` puts an entry that is in no queue at the end; one that is in a queue stays, and
-- nothing changes.
pub add_lem :
    (s : Waits) (q e : ℕ) (l : List ℕ)
    → IsWait s q l
    → NotIn e l
    → ((s.entries e).queue ≡ none → IsWait (add s (some q) (some e)) q (l ++ (e ∷ [])))
      × ((p : ℕ) → (s.entries e).queue ≡ some p → add s (some q) (some e) ≡ s)
unfolding add
add_lem s q e l v n = (λ h. rw (h, add) (link-IsWait s q e l v n), λ p h. rw (h, add) refl)
