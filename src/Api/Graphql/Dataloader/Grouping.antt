-- ===== src/Api/Graphql/Dataloader/Grouping.antt =====
-- The groups of a dispatch: every key of the batch stands in them once, whatever the order.
use mathlib.Core.List.{Permᴰ}
use holdex_backend_cqrs.Prelude.{
  ℕ, ◌+◌, String, ◌≡◌, refl, ap, subst, ◌∙◌, ◌↔◌, Bool, true, false, not, ◌&&◌, List, [], ◌∷◌, ◌++◌,
  inl, inr, Bool-cases, arith, str_eq, eq_iff, ==_iff, exists, if◌then◌else◌, ℤ, pos, negsuc,
}
use holdex_backend_cqrs.Api.Graphql.Dataloader.{
  int_eq, DataloaderKey, key_eq, Groups, add_coin, group_keys,
}

pub int_eq_iff : (a b : ℤ) → (int_eq a b ≡ true) ↔ (a ≡ b)
int_eq_iff (pos a) (pos b) = ground (arith, ==_iff a b)
int_eq_iff (negsuc a) (negsuc b) = ground (arith, ==_iff a b)
int_eq_iff (pos a) (negsuc b) = ground arith
int_eq_iff (negsuc a) (pos b) = ground arith

pub key_eq→eq : (j k : DataloaderKey) → key_eq j k ≡ true → j ≡ k
key_eq→eq j k h =
    let coin : str_eq j.coin_id k.coin_id ≡ true = ground arith in
    let limit : int_eq j.limit k.limit ≡ true = ground arith in
    λ i. record {
      coin_id = (eq_iff j.coin_id k.coin_id).0 coin i;
      limit = (int_eq_iff j.limit k.limit).0 limit i;
    }

abbrev pub one_if : Bool → ℕ
one_if true = 1
one_if false = 0

-- How often a coin stands in a batch, and a key in the groups.
abbrev pub occurrences : String → List String → ℕ
occurrences c [] = 0
occurrences c (d ∷ ds) = one_if (str_eq d c) + occurrences c ds

abbrev pub count : DataloaderKey → Groups → ℕ
count k [] = 0
count k (g ∷ gs) = (if int_eq g.0 k.limit then occurrences k.coin_id g.1 else 0) + count k gs

occurrences-snoc :
    (c d : String) (ds : List String)
    → occurrences c (ds ++ d ∷ []) ≡ one_if (str_eq d c) + occurrences c ds
occurrences-snoc c d [] = refl
occurrences-snoc c d (e ∷ ds) = omega (arith, occurrences-snoc c d ds)

count-add_coin :
    (k : DataloaderKey) (limit : ℤ) (coin : String) (gs : Groups)
    → count k (add_coin limit coin gs)
      ≡ one_if (str_eq coin k.coin_id && int_eq limit k.limit) + count k gs
count-add_coin k limit coin [] = ground arith
count-add_coin k limit coin (g ∷ gs) = elim (Bool-cases (int_eq g.0 limit)) [
  | inl y ↦
      rw y (rw ((int_eq_iff g.0 limit).0 y) (ground (arith, occurrences-snoc k.coin_id coin g.1)))
  | inr n ↦ rw n (omega (arith, count-add_coin k limit coin gs))
]

is_key : DataloaderKey → DataloaderKey → Bool
is_key k j = key_eq j k

module _ (k : DataloaderKey) where
  -- The keys that a loop adds: those of the batch that it has not seen.
  abbrev added : List DataloaderKey → List DataloaderKey → Bool
  added ks seen = not (exists (is_key k) seen) && exists (is_key k) ks

  count-group_keys :
      (ks seen : List DataloaderKey) (gs : Groups)
      → count k (group_keys ks seen gs) ≡ one_if (added ks seen) + count k gs
  unfolding group_keys is_key
  count-group_keys [] seen gs = ground arith
  count-group_keys (j ∷ ks) seen gs = elim (Bool-cases (exists (λ i. key_eq i j) seen)) [
    | inl y ↦ rw y (elim (Bool-cases (key_eq j k)) [
      | inl e ↦
          let known : exists (is_key k) seen ≡ true =
            subst (λ x. exists (λ i. key_eq i x) seen ≡ true) (key_eq→eq j k e) y in
          count-group_keys ks seen gs ∙ (rw (e, known))
      | inr e ↦ count-group_keys ks seen gs ∙ (rw e)
    ])
    | inr n ↦ rw n (
        count-group_keys ks (j ∷ seen) (add_coin j.limit j.coin_id gs)
        ∙ (elim (Bool-cases (key_eq j k)) [
          | inl e ↦
              let unknown : exists (is_key k) seen ≡ false =
                subst (λ x. exists (λ i. key_eq i x) seen ≡ false) (key_eq→eq j k e) n in
              (rw (count-add_coin k j.limit j.coin_id gs, e, unknown) (omega arith))
          | inr e ↦ rw (count-add_coin k j.limit j.coin_id gs, e) (omega arith)
        ]))
  ]

  in_group : ℤ × List String → ℕ
  in_group g = if int_eq g.0 k.limit then occurrences k.coin_id g.1 else 0

  pub count-perm : {gs hs : Groups} → Permᴰ gs hs → count k gs ≡ count k hs
  unfolding in_group
  count-perm Permᴰ.nil = refl
  count-perm (Permᴰ.cons {a} {b} {l₁} {l₂} e p) = omega (arith, ap in_group e, count-perm p)
  count-perm (Permᴰ.swap {a} {b} {a'} {b'} {l} e f) = omega (arith, ap in_group e, ap in_group f)
  count-perm (Permᴰ.trans p r) = count-perm p ∙ count-perm r

  -- Every key of a batch is asked for exactly once.
  pub count-group_keys_all :
      (ks : List DataloaderKey)
      → exists (λ j. key_eq j k) ks ≡ true
      → count k (group_keys ks [] []) ≡ 1
  unfolding is_key
  count-group_keys_all ks h = count-group_keys ks [] [] ∙ (rw h)
