-- ===== src/Chain/Tickets/Bytes.antt =====
-- `bytes.Equal` tells equality.
use jam_protocol.Base.{
  and_left, and_right, ℕ, ◌≡◌, ◌≢◌, refl, sym, ap, ap₂, ◌∙◌, true, false, List, [], ◌∷◌, ◌==◌,
  ==_iff, ==_self,
}
use jam_protocol.Chain.Tickets.{bytes_equal}

pub bytes_equal_self : (a : List ℕ) → bytes_equal a a ≡ true
unfolding bytes_equal
bytes_equal_self [] = refl
bytes_equal_self (x ∷ xs) = rw (==_self x, bytes_equal_self xs) refl

pub bytes_equal_eq : (a b : List ℕ) → bytes_equal a b ≡ true → a ≡ b
unfolding bytes_equal
bytes_equal_eq [] [] h = refl
bytes_equal_eq [] (y ∷ ys) h = absurd cc
bytes_equal_eq (x ∷ xs) [] h = absurd cc
bytes_equal_eq (x ∷ xs) (y ∷ ys) h =
    ap₂ (λ a rest. a ∷ rest) ((==_iff x y).0 (and_left (x == y) _ h))
      (bytes_equal_eq xs ys (and_right (x == y) _ h))

pub bytes_equal_ne : (a b : List ℕ) → bytes_equal a b ≡ false → a ≢ b
bytes_equal_ne a b h e =
    let same = ap (λ c. bytes_equal a c) (sym e) ∙ bytes_equal_self a in absurd cc
