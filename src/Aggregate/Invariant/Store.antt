-- ===== src/Aggregate/Invariant/Store.antt =====
-- Writes to one statistic of the ring, and the invariant of the others.
use nginx_statshouse_module.Base.{
  ℕ, ◌-◌, ◌<◌, ◌≡◌, ◌≢◌, refl, ap, subst, List, [], ◌∷◌, All, All-imp, without, In-without,
  In-without_back, All-without, ℕ_discrete, All-In, All-of_In, In, ==_iff, ==_of_ne, arith,
  length-set, get_or,
}
use nginx_statshouse_module.Stat.{Stat, mt_counter}
use nginx_statshouse_module.Aggregate.{
  Platform, Aggregate, add_counter, append_value, replace, spare_values,
}
use nginx_statshouse_module.Aggregate.Index.{AggregateStat, Memory, store, inorder}
use nginx_statshouse_module.Aggregate.Index.Search.{IsSorted, Le}
use nginx_statshouse_module.Aggregate.Laws.{Lawful}
use nginx_statshouse_module.Aggregate.Invariant.{chunks, HasRoom, IsValid}
use nginx_statshouse_module.Aggregate.Invariant.Retire.{IsSorted-without}

-- Two states of a statistic that the ring and the tree cannot tell apart.
pub record Same (s t : AggregateStat) : Type 0 where
  pub same_key : t.key ≡ s.key
  pub same_size : t.size ≡ s.size

pub store_self : (mem : Memory) (p : ℕ) (s : AggregateStat) → store mem p s p ≡ s
store_self mem p s = rw ((==_iff p p).1 refl)

pub store_ne : (mem : Memory) (p q : ℕ) (s : AggregateStat) → p ≢ q → store mem p s q ≡ mem q
store_ne mem p q s ne = rw (==_of_ne p q ne)

Same-refl : (s : AggregateStat) → Same s s
Same-refl s = record { same_key = refl; same_size = refl }

-- A property of the old and the new content holds everywhere if it holds at the address that is
-- written and of equal contents.
store-cases :
    (P : ℕ → AggregateStat → Type 0) (mem : Memory) (p : ℕ) (s : AggregateStat)
    → P p s
    → ((q : ℕ) → p ≢ q → P q (mem q))
    → (q : ℕ) → P q (store mem p s q)
store-cases P mem p s at other q = elim (ℕ_discrete p q) [
  | yes e ↦ subst (λ r. P r (store mem p s r)) e (rw (store_self mem p s) at)
  | no ne ↦ rw (store_ne mem p q s ne) (other q ne)
]

pub chunks-agree :
    (mem mem' : Memory) (q : List ℕ)
    → All (λ x. (mem' x).size ≡ (mem x).size) q
    → chunks mem' q ≡ chunks mem q
chunks-agree mem mem' [] h = refl
chunks-agree mem mem' (x ∷ q) (h, hs) =
    rw (chunks-agree mem mem' q hs) (ap (λ z. record { ptr = x; size = z } ∷ chunks mem q) h)

pub IsSorted-Same :
    (mem mem' : Memory) (q : List ℕ)
    → All (λ x. Same (mem x) (mem' x)) q
    → IsSorted mem q
    → IsSorted mem' q
IsSorted-Same mem mem' [] h s = tt
IsSorted-Same mem mem' (x ∷ q) (h, hs) (l, s) = (
  All-of_In _ q
      (λ y i. moved (mem x) (mem' x) (mem y) (mem' y) h (All-In _ y q hs i) (All-In _ y q l i)),
  IsSorted-Same mem mem' q hs s,
)
  where
    moved : (a a' b b' : AggregateStat) → Same a a' → Same b b' → Le a b → Le a' b'
    moved a a' b b' h k le = omega arith

-- What is written at an address changes nothing at the addresses of a list that it is not in.
pub store_apart :
    (mem : Memory) (p : ℕ) (s : AggregateStat) (q : List ℕ)
    → All (λ x. p ≢ x) q
    → All (λ x. Same (mem x) (store mem p s x)) q
store_apart mem p s q h = All-imp _ _ q (λ x ne. rw (store_ne mem p x s ne) (Same-refl (mem x))) h

-- A write that keeps the key, the size and the room.
pub store-IsValid :
    (a : Aggregate) (p : ℕ) (s : AggregateStat)
    → Same (a.mem p) s
    → HasRoom a.values s.stat
    → IsValid a
    → IsValid (record a { mem = store a.mem p s })
store-IsValid a p s same room v = record {
  ring =
      rw (chunks-agree a.mem mem' a.queue (All-of_In _ a.queue (λ q _. (agree q).same_size)))
        v.ring;
  slots = All-of_In _ a.queue (λ q i.
      store-cases (λ q t. HasRoom a.values (a.mem q).stat → HasRoom a.values t.stat) a.mem p s
        (λ _. room) (λ q _ h. h) q (All-In _ q a.queue v.slots i));
  indexed = record {
    queued = v.indexed.queued;
    keyed = All-imp _ _ (inorder a.tree) (λ q k. rw ((agree q).same_key) k) v.indexed.keyed;
    held = All-imp _ _ a.queue (λ q h k. h (rw ((agree q).same_key) at k)) v.indexed.held;
    sorted =
        IsSorted-Same a.mem mem' (inorder a.tree) (All-of_In _ (inorder a.tree) (λ q _. agree q))
          v.indexed.sorted;
  };
}
  where
    mem' : Memory
    mem' = store a.mem p s

    agree : (q : ℕ) → Same (a.mem q) (mem' q)
    agree = store-cases (λ q t. Same (a.mem q) t) a.mem p s same (λ q _. Same-refl (a.mem q))

-- The two updates of a statistic that is found.
pub add_counter-Same :
    (add : ℕ → ℕ → ℕ) (s : AggregateStat) (stat : Stat) → Same s (add_counter add s stat)
unfolding add_counter
add_counter-Same add s stat = record { same_key = refl; same_size = refl }

pub add_counter-HasRoom :
    (add : ℕ → ℕ → ℕ) (values : ℕ) (s : AggregateStat) (stat : Stat)
    → HasRoom values s.stat
    → HasRoom values (add_counter add s stat).stat
unfolding add_counter
add_counter-HasRoom add values s stat h =
    ground
      (arith, length-set s.stat.values 0 (add (get_or s.stat.values 0 0) (get_or stat.values 0 0)))

pub append_value-Same : (s : AggregateStat) (stat : Stat) → Same s (append_value s stat)
unfolding append_value
append_value-Same s stat = record { same_key = refl; same_size = refl }

-- A value is appended inside the room, if fewer than the values allowed are there.
pub append_value-HasRoom :
    (values : ℕ) (s : AggregateStat) (stat : Stat)
    → s.stat.type ≢ mt_counter
    → s.stat.values_count < values
    → HasRoom values s.stat
    → HasRoom values (append_value s stat).stat
unfolding append_value
append_value-HasRoom values s stat ne lt h =
    ground (arith, length-set s.stat.values s.stat.values_count (get_or stat.values 0 0), spare)
  where
    spare : spare_values s.stat.type values ≡ values - 1
    spare = unfold spare_values in ground arith

-- A statistic that is replaced stays in the queue and leaves the tree.
pub replace-IsValid :
    (platform : Platform) (a : Aggregate) (p : ℕ)
    → Lawful platform
    → In p (inorder a.tree)
    → IsValid a
    → IsValid (replace platform a p)
unfolding replace
replace-IsValid platform a p law i v = record {
  ring = rw (chunks-agree a.mem mem' a.queue (All-of_In _ a.queue (λ q _. sizes q))) v.ring;
  slots = All-of_In _ a.queue (λ q j.
      store-cases (λ q t. HasRoom a.values (a.mem q).stat → HasRoom a.values t.stat) a.mem p _
        (λ h. h) (λ q _ h. h) q (All-In _ q a.queue v.slots j));
  indexed = rw (law.delete_inorder a.tree p i) (record {
    queued = All-without _ p nodes v.indexed.queued;
    keyed = All-of_In _ (without p nodes) (λ q j.
        let (ne, at) = In-without p q nodes j in
        rw (store_ne a.mem p q _ ne) (All-In _ q nodes v.indexed.keyed at));
    held = All-of_In _ a.queue (λ q j k. held q j (zero_at q k) k);
    sorted =
        IsSorted-Same a.mem mem' (without p nodes)
          (store_apart a.mem p _ (without p nodes)
            (All-of_In _ (without p nodes) (λ q j. (In-without p q nodes j).0)))
          (IsSorted-without a.mem p nodes v.indexed.sorted);
  });
}
  where
    nodes : List ℕ
    nodes = inorder a.tree

    mem' : Memory
    mem' = store a.mem p (record (a.mem p) { key = 0 })

    sizes : (q : ℕ) → (mem' q).size ≡ (a.mem q).size
    sizes = store-cases (λ q t. t.size ≡ (a.mem q).size) a.mem p _ refl (λ q _. refl)

    zero_at : (q : ℕ) → (mem' q).key ≢ 0 → p ≢ q
    zero_at q k e =
        k (rw (← e) (ap (λ t. t.key) (store_self a.mem p (record (a.mem p) { key = 0 }))))

    held : (q : ℕ) → In q a.queue → p ≢ q → (mem' q).key ≢ 0 → In q (without p nodes)
    held q j ne k =
        In-without_back p q nodes ne
          (All-In _ q a.queue v.indexed.held j (rw (store_ne a.mem p q _ ne) at k))
