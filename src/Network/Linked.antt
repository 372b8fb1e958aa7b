-- ===== src/Network/Linked.antt =====
-- The handles and the connections of a Network belong to each other.
use crosschain_agent.Prelude.{
  Bool-cases, Option, Option-cases, ap, arith, eqb_ℤ, false, false≢true, inl, inr, negsuc, none,
  pos, refl, some, subst, suc, sym, true, ℕ, ℤ, ◌<ℤ◌, ◌∙◌, ◌≡◌,
}
use crosschain_agent.Network.IdMap.{
  IdMap, find, update, erase, mapped, insert, find-erase, find-update, find-insert,
}
use crosschain_agent.Network.{Connection}

eqb_ℤ_sound : (a b : ℤ) → eqb_ℤ a b ≡ true → a ≡ b
eqb_ℤ_sound (pos m) (pos n) h = ap pos (ground (arith, h))
eqb_ℤ_sound (pos m) (negsuc n) h = absurd (ground (arith, h))
eqb_ℤ_sound (negsuc m) (pos n) h = absurd (ground (arith, h))
eqb_ℤ_sound (negsuc m) (negsuc n) h = ap negsuc (ground (arith, h))

pub eqb_ℤ_refl : (a : ℤ) → eqb_ℤ a a ≡ true
eqb_ℤ_refl a = ground arith

distinct : (a b : ℤ) → (a ≡ b → ⊥) → eqb_ℤ a b ≡ false
distinct a b h = elim (Bool-cases (eqb_ℤ a b)) [
  | inl e ↦ absurd (h (eqb_ℤ_sound a b e))
  | inr e ↦ e
]

apart : (a b : ℤ) → eqb_ℤ a b ≡ false → a ≡ b → ⊥
apart a b n e = false≢true (sym n ∙ subst (λ x. eqb_ℤ a x ≡ true) e (eqb_ℤ_refl a))

-- Each handle leads to a connection with that handle; each connection stands under its own identifier,
-- its handle leads to it, and the identifiers that are in use are below the next one.
pub record IsLinked (connections : IdMap Connection) (handles : IdMap ℤ) (next_id : ℤ)
    : Type 0 where
  pub leads :
      (hdl id : ℤ)
      → find hdl handles ≡ some id
      → (c : Connection) × (find id connections ≡ some c) × (c.handle ≡ hdl)
  pub stands :
      (id : ℤ) (c : Connection)
      → find id connections ≡ some c
      → (c.id ≡ id) × (find c.handle handles ≡ some id) × (id <ℤ next_id)

abbrev pub SameNames : (Connection → Connection) → Type 0
SameNames f = (c : Connection) → ((f c).id ≡ c.id) × ((f c).handle ≡ c.handle)

pub some_injective : {A : Type 0} (x y : A) → some x ≡ some y → x ≡ y
some_injective x y e = cc

pub none≢some : {A : Type 0} (x : A) → none ≡ some x → ⊥
none≢some x e = cc

pub update-IsLinked :
    (id : ℤ) (f : Connection → Connection) (connections : IdMap Connection) (handles : IdMap ℤ)
    (next_id : ℤ)
    → SameNames f
    → IsLinked connections handles next_id
    → IsLinked (update id f connections) handles next_id
update-IsLinked id f connections handles next_id same h = record {
  leads = λ hdl j e.
      let (c, there, own) = h.leads hdl j e in
      elim (Bool-cases (eqb_ℤ id j)) [
        | inl y ↦ (f c, rw (find-update, y, there) refl, (same c).1 ∙ own)
        | inr n ↦ (c, rw (find-update, n) there, own)
      ];
  stands = λ j c e. elim (Bool-cases (eqb_ℤ id j)) [
    | inl y ↦ updated_stands j c (find j connections) refl (rw (find-update, y) at e)
    | inr n ↦ h.stands j c (rw (find-update, n) at e)
  ];
}
  where
    updated_stands :
        (j : ℤ) (c : Connection) (o : Option Connection)
        → find j connections ≡ o
        → mapped f o ≡ some c
        → (c.id ≡ j) × (find c.handle handles ≡ some j) × (j <ℤ next_id)
    updated_stands j c none e g = absurd (none≢some c g)
    updated_stands j c (some b) e g =
        let is_c : f b ≡ c = some_injective (f b) c g in
        subst (λ x. (x.id ≡ j) × (find x.handle handles ≡ some j) × (j <ℤ next_id)) is_c
          (let (own, linked, below) = h.stands j b e in
            ((same b).0 ∙ own, rw ((same b).1) linked, below))

pub insert-IsLinked :
    (conn : Connection) (connections : IdMap Connection) (handles : IdMap ℤ) (n : ℕ)
    → conn.id ≡ pos n
    → find conn.handle handles ≡ none
    → IsLinked connections handles (pos n)
    → IsLinked (insert conn.id conn connections) (insert conn.handle conn.id handles) (pos (suc n))
insert-IsLinked conn connections handles n is_next unused h =
    let fresh : find conn.id connections ≡ none = elim (Option-cases (find conn.id connections)) [
      | inl e ↦ e
      | inr (c, e) ↦ absurd (
          let (_, _, below) = h.stands conn.id c e in
          (omega (arith, subst (λ z. z <ℤ pos n) is_next below)))
    ] in
    record {
      leads = λ hdl j e. elim (Bool-cases (eqb_ℤ conn.handle hdl)) [
        | inl y ↦
            let is_id : conn.id ≡ j =
              some_injective conn.id j
                (rw (find-insert conn.handle hdl conn.id handles unused, y) at e) in
            (
              conn,
              rw (find-insert conn.id j conn connections fresh, sym is_id, eqb_ℤ_refl conn.id) refl,
              eqb_ℤ_sound conn.handle hdl y,
            )
        | inr x ↦
            let (c, there, own) =
              h.leads hdl j (rw (find-insert conn.handle hdl conn.id handles unused, x) at e) in
            let other : eqb_ℤ conn.id j ≡ false = distinct conn.id j (λ same.
              none≢some c
                (sym fresh ∙ subst (λ z. find z connections ≡ some c) (sym same) there)) in
            (c, rw (find-insert conn.id j conn connections fresh, other) there, own)
      ];
      stands = λ j c e. elim (Bool-cases (eqb_ℤ conn.id j)) [
        | inl y ↦
            let is_j : conn.id ≡ j = eqb_ℤ_sound conn.id j y in
            let is_c : conn ≡ c =
              some_injective conn c (rw (find-insert conn.id j conn connections fresh, y) at e) in
            subst
              (λ x.
                (x.id ≡ j)
                × (find x.handle (insert conn.handle conn.id handles) ≡ some j)
                × (j <ℤ pos (suc n)))
              is_c
              (
                is_j,
                rw
                    (
                      find-insert conn.handle conn.handle conn.id handles unused,
                      eqb_ℤ_refl conn.handle,
                    )
                    (ap some is_j),
                subst (λ z. z <ℤ pos (suc n)) (sym is_next ∙ is_j) (omega arith),
              )
        | inr x ↦
            let (own, linked, below) =
              h.stands j c (rw (find-insert conn.id j conn connections fresh, x) at e) in
            let other : eqb_ℤ conn.handle c.handle ≡ false = distinct conn.handle c.handle (λ same.
              none≢some j (sym unused ∙ subst (λ z. find z handles ≡ some j) (sym same) linked)) in
            (
              own,
              rw (find-insert conn.handle c.handle conn.id handles unused, other) linked,
              ground (arith, below),
            )
      ];
    }

-- A connection that may be taken out: what its handle and its identifier still lead to is that
-- connection.
abbrev pub IsOwn : Connection → IdMap Connection → IdMap ℤ → Type 0
IsOwn conn connections handles =
    ((id : ℤ) → find conn.handle handles ≡ some id → id ≡ conn.id)
    × ((c : Connection) → find conn.id connections ≡ some c → c.handle ≡ conn.handle)

pub erase-IsLinked :
    (conn : Connection) (connections : IdMap Connection) (handles : IdMap ℤ) (next_id : ℤ)
    → IsOwn conn connections handles
    → IsLinked connections handles next_id
    → IsLinked (erase conn.id connections) (erase conn.handle handles) next_id
erase-IsLinked conn connections handles next_id own h = record {
  leads = λ hdl j e. elim (Bool-cases (eqb_ℤ conn.handle hdl)) [
    | inl y ↦ absurd (none≢some j (rw (find-erase, y) at e))
    | inr n ↦
        let (c, there, is_hdl) = h.leads hdl j (rw (find-erase, n) at e) in
        let other : eqb_ℤ conn.id j ≡ false = distinct conn.id j (λ same.
          apart conn.handle hdl n
            (sym (own.1 c (subst (λ z. find z connections ≡ some c) (sym same) there)) ∙ is_hdl)) in
        (c, rw (find-erase, other) there, is_hdl)
  ];
  stands = λ j c e. elim (Bool-cases (eqb_ℤ conn.id j)) [
    | inl y ↦ absurd (none≢some c (rw (find-erase, y) at e))
    | inr n ↦
        let (is_j, linked, below) = h.stands j c (rw (find-erase, n) at e) in
        let other : eqb_ℤ conn.handle c.handle ≡ false = distinct conn.handle c.handle (λ same.
          apart conn.id j n
            (sym (own.0 j (subst (λ z. find z handles ≡ some j) (sym same) linked)))) in
        (is_j, rw (find-erase, other) linked, below)
  ];
}
