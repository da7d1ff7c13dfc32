-- ===== src/Server/Names.antt =====
-- The names of connections in src/TcpServer.cc differ.
use annety.Prelude.{
  ℕ, ◌≡◌, refl, sym, ap, ◌∙◌, true, false, List, [], ◌∷◌, ◌++◌, ◌==◌, drop, length,
  drop-length_append, ==_iff, arith, Bool-cases, inl, inr,
}
use annety.Server.{same_name, conn_name}

same_name_refl : (xs : List ℕ) → same_name xs xs ≡ true
same_name_refl [] = refl
same_name_refl (x ∷ xs) = ground (arith, same_name_refl xs)

same_name_eq : (xs ys : List ℕ) → same_name xs ys ≡ true → xs ≡ ys
same_name_eq [] [] h = refl
same_name_eq [] (y ∷ ys) h = absurd (cc)
same_name_eq (x ∷ xs) [] h = absurd (cc)
same_name_eq (x ∷ xs) (y ∷ ys) h =
    let rest = same_name_eq xs ys (ground (arith, h)) in
    let first : x ≡ y = ground (arith, h) in ap (λ z. z ∷ xs) first ∙ ap (λ zs. y ∷ zs) rest

append_cancel : (xs ys zs : List ℕ) → xs ++ ys ≡ xs ++ zs → ys ≡ zs
append_cancel xs ys zs e =
    sym (drop-length_append xs ys) ∙ ap (drop (length xs)) e ∙ drop-length_append xs zs

module _ (name_ ip_port : List ℕ) (print : ℕ → List ℕ)
    (printed : (m n : ℕ) → print m ≡ print n → m ≡ n) where
  conn_name_eq :
      (m n : ℕ) → conn_name name_ ip_port print m ≡ conn_name name_ ip_port print n → m ≡ n
  unfolding conn_name
  conn_name_eq m n e =
      let tails = ap (drop 1) (append_cancel name_ _ _ e) in
      printed m n (ap (drop 1) (append_cancel ip_port _ _ tails))

  -- Names are the same for the same number only.
  pub same_conn_name :
      (m n : ℕ)
      → same_name (conn_name name_ ip_port print m) (conn_name name_ ip_port print n) ≡ (m == n)
  same_conn_name m n = elim (Bool-cases (m == n)) [
    | inl same ↦
        let equal : m ≡ n = ground (arith, same) in
        ap (λ k. same_name (conn_name name_ ip_port print m) (conn_name name_ ip_port print k))
          (sym equal)
        ∙ same_name_refl (conn_name name_ ip_port print m)
        ∙ sym same
    | inr other ↦
        elim (Bool-cases
          (same_name (conn_name name_ ip_port print m) (conn_name name_ ip_port print n))) [
            | inl alike ↦
                let equal = conn_name_eq m n (same_name_eq _ _ alike) in
                let clash : true ≡ false = sym ((==_iff m n).1 equal) ∙ other in absurd (cc)
            | inr apart ↦ apart ∙ sym other
          ]
  ]
