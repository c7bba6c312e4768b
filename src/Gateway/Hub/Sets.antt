-- ===== src/Gateway/Hub/Sets.antt =====
-- Predicates on the sets of clients, and on all sets of a map, under the operations of the hub.
use truth_market.Base.{
  ◌≡◌, refl, true, false, List, [], ◌∷◌, ◌==◌, if◌then◌else◌, All, arith, Bool-cases, inl, inr,
  ==_refl,
}
use truth_market.Base.Maps.{insert}
use truth_market.Domain.{Ident}
use truth_market.Gateway.Hub.{
  mem, set_add, set_delete, subs_of, keep_set, remove_from, remove_from_all,
}

pub mem-set_delete :
    (c j : Ident) (xs : List Ident) → mem j (set_delete c xs) ≡ (if j == c then false else mem j xs)
mem-set_delete c j [] = ground arith
mem-set_delete c j (x ∷ xs) = ground (arith, mem-set_delete c j xs)

pub mem-set_add : (c : Ident) (xs : List Ident) → mem c (set_add c xs) ≡ true
mem-set_add c xs = elim (Bool-cases (mem c xs)) [ inl e ↦ rw e e | inr e ↦ rw (e, ==_refl c) refl ]

-- No client stands twice in a set.
abbrev pub Distinct : List Ident → Type 0
Distinct [] = Unit
Distinct (x ∷ xs) = (mem x xs ≡ false) × Distinct xs

pub Distinct-set_delete : (c : Ident) (xs : List Ident) → Distinct xs → Distinct (set_delete c xs)
Distinct-set_delete c [] d = tt
Distinct-set_delete c (x ∷ xs) d =
    ground (arith, Distinct-set_delete c xs d.1, mem-set_delete c x xs)

pub Distinct-set_add : (c : Ident) (xs : List Ident) → Distinct xs → Distinct (set_add c xs)
Distinct-set_add c xs d = elim (Bool-cases (mem c xs)) [ inl e ↦ rw e d | inr e ↦ rw e (e, d) ]

module _ (P : Ident → Type 0) where
  pub All-set_add : (c : Ident) (xs : List Ident) → P c → All P xs → All P (set_add c xs)
  All-set_add c xs p a = elim (Bool-cases (mem c xs)) [ inl e ↦ rw e a | inr e ↦ rw e (p, a) ]

-- A predicate of a set that deletion and the empty set keep, on all sets of a map.
module _ (P : List Ident → Type 0) where
  abbrev pub AllSets : List (Ident × List Ident) → Type 0
  AllSets [] = Unit
  AllSets (e ∷ m) = P e.1 × AllSets m

  pub AllSets-subs_of :
      (k : Ident) (m : List (Ident × List Ident)) → P [] → AllSets m → P (subs_of k m)
  AllSets-subs_of k [] z a = z
  AllSets-subs_of k (e ∷ m) z a = elim (Bool-cases (e.0 == k)) [
    | inl q ↦ rw q a.0
    | inr q ↦ rw q (AllSets-subs_of k m z a.1)
  ]

  pub AllSets-insert :
      (k : Ident) (s : List Ident) (m : List (Ident × List Ident))
      → P s
      → AllSets m
      → AllSets (insert k s m)
  AllSets-insert k s [] p a = (p, tt)
  AllSets-insert k s (e ∷ m) p a = elim (Bool-cases (e.0 == k)) [
    | inl q ↦ rw q (p, a.1)
    | inr q ↦ rw q (a.0, AllSets-insert k s m p a.1)
  ]

  AllSets-keep_set :
      (k : Ident) (s : List Ident) (m : List (Ident × List Ident))
      → P s
      → AllSets m
      → AllSets (keep_set k s m)
  AllSets-keep_set k [] m p a = a
  AllSets-keep_set k (x ∷ xs) m p a = (p, a)

  pub AllSets-remove_from :
      (k c : Ident) (m : List (Ident × List Ident))
      → ((s : List Ident) → P s → P (set_delete c s))
      → AllSets m
      → AllSets (remove_from k c m)
  AllSets-remove_from k c [] d a = tt
  AllSets-remove_from k c (e ∷ m) d a = elim (Bool-cases (e.0 == k)) [
    | inl q ↦ rw q (AllSets-keep_set e.0 (set_delete c e.1) m (d e.1 a.0) a.1)
    | inr q ↦ rw q (a.0, AllSets-remove_from k c m d a.1)
  ]

pub AllSets-remove_from_all :
    (P Q : List Ident → Type 0) (c : Ident) (m : List (Ident × List Ident))
    → ((s : List Ident) → P s → Q (set_delete c s))
    → AllSets P m
    → AllSets Q (remove_from_all c m)
AllSets-remove_from_all P Q c [] d a = tt
AllSets-remove_from_all P Q c (e ∷ m) d a =
    AllSets-keep_set Q e.0 (set_delete c e.1) (remove_from_all c m) (d e.1 a.0)
      (AllSets-remove_from_all P Q c m d a.1)
