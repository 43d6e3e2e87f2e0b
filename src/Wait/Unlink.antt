-- ===== src/Wait/Unlink.antt =====
-- `wait_queue_remove` takes an entry out of the middle of its queue.
use punix.Base.{
  ℕ, ◌≡◌, refl, sym, ap, ◌∙◌, ◌≢◌, Option, none, some, update, update_self, update_ne, ℕ_discrete,
}
use punix.Wait.{Entry, Waits, set_next, set_prev, unlink, detach}
use punix.Wait.Linked.{Entries}

-- `es'` is `es` with `e` taken out from between `p` and `n`.
pub record Rewired (es es' : Entries) (e : ℕ) (p n : Option ℕ) : Type 0 where
  pub next_at : (x : ℕ) → x ≢ e → p ≡ some x → (es' x).next ≡ n
  pub next_other : (x : ℕ) → x ≢ e → p ≢ some x → (es' x).next ≡ (es x).next
  pub prev_at : (x : ℕ) → x ≢ e → n ≡ some x → (es' x).prev ≡ p
  pub prev_other : (x : ℕ) → x ≢ e → n ≢ some x → (es' x).prev ≡ (es x).prev
  pub queue : (x : ℕ) → x ≢ e → (es' x).queue ≡ (es x).queue

pub update-field {ℓ κ} :
    {A : Type ℓ} {B : Type κ} (f : B → A) (es : ℕ → B) (i x : ℕ) (v : B)
    → f v ≡ f (es i)
    → f (update es i v x) ≡ f (es x)
update-field f es i x v same = elim (ℕ_discrete x i) [
  | yes e ↦ rw (e, update_self) same
  | no ne ↦ ap f (update_ne es i x v ne)
]

-- `set_next` changes the field `next` of one entry at most.
set_next-field {ℓ} :
    {A : Type ℓ} (f : Entry → A) (s : Waits) (q : ℕ) (p n : Option ℕ) (x : ℕ)
    → ((y : Entry) → f (record y { next = n }) ≡ f y)
    → f ((set_next s q p n).entries x) ≡ f (s.entries x)
set_next-field f s q none n x h = refl
set_next-field f s q (some p) n x h = update-field f s.entries p x _ (h (s.entries p))

set_next-other :
    (s : Waits) (q : ℕ) (p n : Option ℕ) (x : ℕ)
    → p ≢ some x
    → (set_next s q p n).entries x ≡ s.entries x
set_next-other s q none n x h = refl
set_next-other s q (some p) n x h = update_ne s.entries p x _ (λ e. h (ap some (sym e)))

set_next-at :
    (s : Waits) (q : ℕ) (p n : Option ℕ) (x : ℕ)
    → p ≡ some x
    → ((set_next s q p n).entries x).next ≡ n
set_next-at s q p n x e = rw e (ap (λ (y : Entry). y.next) (update_self s.entries x _))

-- `set_prev` changes the field `prev` of one entry at most.
set_prev-field {ℓ} :
    {A : Type ℓ} (f : Entry → A) (s : Waits) (q : ℕ) (n p : Option ℕ) (x : ℕ)
    → ((y : Entry) → f (record y { prev = p }) ≡ f y)
    → f ((set_prev s q n p).entries x) ≡ f (s.entries x)
set_prev-field f s q none p x h = refl
set_prev-field f s q (some n) p x h = update-field f s.entries n x _ (h (s.entries n))

set_prev-other :
    (s : Waits) (q : ℕ) (n p : Option ℕ) (x : ℕ)
    → n ≢ some x
    → (set_prev s q n p).entries x ≡ s.entries x
set_prev-other s q none p x h = refl
set_prev-other s q (some n) p x h = update_ne s.entries n x _ (λ e. h (ap some (sym e)))

set_prev-at :
    (s : Waits) (q : ℕ) (n p : Option ℕ) (x : ℕ)
    → n ≡ some x
    → ((set_prev s q n p).entries x).prev ≡ p
set_prev-at s q n p x e = rw e (ap (λ (y : Entry). y.prev) (update_self s.entries x _))

-- The writes of the unlinking, with the neighbours named.
abbrev pub rewire : Waits → ℕ → Option ℕ → Option ℕ → Waits
rewire s q p n = set_prev (set_next s q p n) q n p

pub unlink-rewire :
    (s : Waits) (q e : ℕ) (p n : Option ℕ)
    → (s.entries e).prev ≡ p
    → (s.entries e).next ≡ n
    → p ≢ some e
    → unlink s q e ≡ rewire s q p n
unlink-rewire s q e p n ep en ne = rw (ep, en, set_next-other s q p n e ne, ep, en) refl

pub detach-Rewired :
    (s : Waits) (q e : ℕ) (p n : Option ℕ)
    → Rewired s.entries (detach (rewire s q p n) e).entries e p n
detach-Rewired s q e p n =
    let s1 = set_next s q p n in
    let s2 = rewire s q p n in
    let out : (x : ℕ) → x ≢ e → (detach s2 e).entries x ≡ s2.entries x =
      λ x ne. update_ne s2.entries e x _ ne in
    record {
      next_at = λ x ne ep.
          ap (λ (y : Entry). y.next) (out x ne)
          ∙ set_prev-field (λ y. y.next) s1 q n p x (λ y. refl)
          ∙ set_next-at s q p n x ep;
      next_other = λ x ne np.
          ap (λ (y : Entry). y.next) (out x ne)
          ∙ set_prev-field (λ y. y.next) s1 q n p x (λ y. refl)
          ∙ ap (λ (y : Entry). y.next) (set_next-other s q p n x np);
      prev_at = λ x ne en. ap (λ (y : Entry). y.prev) (out x ne) ∙ set_prev-at s1 q n p x en;
      prev_other = λ x ne nn.
          ap (λ (y : Entry). y.prev) (out x ne)
          ∙ ap (λ (y : Entry). y.prev) (set_prev-other s1 q n p x nn)
          ∙ set_next-field (λ y. y.prev) s q p n x (λ y. refl);
      queue = λ x ne.
          ap (λ (y : Entry). y.queue) (out x ne)
          ∙ set_prev-field (λ y. y.queue) s1 q n p x (λ y. refl)
          ∙ set_next-field (λ y. y.queue) s q p n x (λ y. refl);
    }
