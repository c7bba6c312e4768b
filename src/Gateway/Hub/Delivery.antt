-- ===== src/Gateway/Hub/Delivery.antt =====
-- What a broadcast puts into the channels of the clients.
use truth_market.Base.{
  ◌≡◌, refl, ap, ◌∙◌, fun_ext, Bool, true, false, some, List, [], ◌∷◌, ◌==◌, if◌then◌else◌, All,
  All-map, arith, Bool-cases, inl, inr, ==→eq,
}
use truth_market.Base.Maps.{update}
use truth_market.Domain.{Ident}
use truth_market.Gateway.Hub.{Client, Message, mem, push, deliver}
use truth_market.Gateway.Hub.Sets.{Distinct}

abbrev pub IsOpen : (Ident → Client) → Ident → Type 0
IsOpen objects c = (objects c).is_open ≡ true

-- A set of open clients, each of them once.
abbrev pub IsLive : (Ident → Client) → List Ident → Type 0
IsLive objects s = All (IsOpen objects) s × Distinct s

-- The objects after a message has gone to a set of clients: each of them has it behind its earlier
-- messages, unless its channel is full, and no other object has changed.
abbrev pub delivered : Message → List Ident → (Ident → Client) → Ident → Client
delivered msg cs objects j = if mem j cs then push msg (objects j) else objects j

pub is_open-push : (msg : Message) (c : Client) → (push msg c).is_open ≡ c.is_open
unfolding push
is_open-push msg c = ground arith

pub is_open-delivered :
    (msg : Message) (cs : List Ident) (objects : Ident → Client) (j : Ident)
    → (delivered msg cs objects j).is_open ≡ (objects j).is_open
is_open-delivered msg cs objects j = ground (arith, is_open-push msg (objects j))

IsOpen-update :
    (msg : Message) (c : Ident) (objects : Ident → Client) (cs : List Ident)
    → All (IsOpen objects) cs
    → All (IsOpen (update c (push msg (objects c)) objects)) cs
IsOpen-update msg c objects cs =
    All-map (IsOpen objects) (IsOpen (update c (push msg (objects c)) objects))
      (λ j h. ground (arith, h, ==→eq j c, is_open-push msg (objects c))) cs

delivered_first :
    (msg : Message) (c : Ident) (cs : List Ident) (objects : Ident → Client) (j : Ident)
    → mem c cs ≡ false
    → delivered msg cs (update c (push msg (objects c)) objects) j
      ≡ delivered msg (c ∷ cs) objects j
delivered_first msg c cs objects j fresh = elim (Bool-cases (j == c)) [
  | inl e ↦ ground (
    arith,
    ==→eq j c e,
    fresh,
    ap (λ (i : Ident). mem i cs) (==→eq j c e),
    ap objects (==→eq j c e),
  )
  | inr e ↦ ground arith
]

pub if_open {ℓ} : {A : Type ℓ} (b : Bool) (x y : A) → b ≡ true → (if b then x else y) ≡ x
if_open true x y e = refl
if_open false x y e = absurd cc

pub deliver-live :
    (msg : Message) (cs : List Ident) (objects : Ident → Client)
    → IsLive objects cs
    → deliver msg cs objects ≡ some (delivered msg cs objects)
unfolding deliver
deliver-live msg [] objects v = refl
deliver-live msg (c ∷ cs) objects v =
    if_open _ _ _ v.0.0
    ∙ (deliver-live msg cs (update c (push msg (objects c)) objects)
          (IsOpen-update msg c objects cs v.0.1, v.1.1)
        ∙ ap some (fun_ext (λ j. delivered_first msg c cs objects j v.1.0)))
