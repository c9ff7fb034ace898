-- ===== src/Text/Order.antt =====
-- The order of strings.
use qqflow_server.Prelude.{◌≡◌, refl, ap, ◌∙◌, true, false, [], ◌∷◌, arith}
use qqflow_server.Text.{Text, text_lt}

pub text_lt_asym : (a b : Text) → text_lt a b ≡ true → text_lt b a ≡ false
text_lt_asym [] [] h = refl
text_lt_asym [] (y ∷ b) h = refl
text_lt_asym (x ∷ a) [] h = ground (arith, h)
text_lt_asym (x ∷ a) (y ∷ b) h = ground (arith, h, text_lt_asym a b)

pub text_lt_cotrans :
    (a b c : Text) → text_lt b a ≡ false → text_lt c b ≡ false → text_lt c a ≡ false
text_lt_cotrans [] b [] h g = refl
text_lt_cotrans [] b (z ∷ c) h g = refl
text_lt_cotrans (x ∷ a) [] c h g = ground (arith, h)
text_lt_cotrans (x ∷ a) (y ∷ b) [] h g = ground (arith, g)
text_lt_cotrans (x ∷ a) (y ∷ b) (z ∷ c) h g = ground (arith, h, g, text_lt_cotrans a b c)

pub text_lt_trans : (a b c : Text) → text_lt a b ≡ true → text_lt b c ≡ true → text_lt a c ≡ true
text_lt_trans [] b [] h g = ground (arith, g, text_lt_asym [] b h)
text_lt_trans [] b (z ∷ c) h g = refl
text_lt_trans (x ∷ a) [] c h g = ground (arith, h)
text_lt_trans (x ∷ a) (y ∷ b) [] h g = ground (arith, g)
text_lt_trans (x ∷ a) (y ∷ b) (z ∷ c) h g = ground (arith, h, g, text_lt_trans a b c)

pub text_lt_irrefl : (a : Text) → text_lt a a ≡ false
text_lt_irrefl [] = refl
text_lt_irrefl (x ∷ a) = ground (arith, text_lt_irrefl a)

-- Two strings of which neither is smaller are the same.
pub text_lt_apart : (a b : Text) → text_lt a b ≡ false → text_lt b a ≡ false → a ≡ b
text_lt_apart [] [] h g = refl
text_lt_apart [] (y ∷ b) h g = ground (arith, h)
text_lt_apart (x ∷ a) [] h g = ground (arith, g)
text_lt_apart (x ∷ a) (y ∷ b) h g =
    let heads : x ≡ y = ground (arith, h, g) in
    let tails = text_lt_apart a b (ground (arith, h, heads)) (ground (arith, g, heads)) in
    ap (λ t. x ∷ t) tails ∙ ap (λ c. c ∷ b) heads
