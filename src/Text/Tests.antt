-- ===== src/Text/Tests.antt =====
-- Numbers printed and read back.
use gd_rpc.Base.{◌≡◌, refl, [], ◌∷◌}
use gd_rpc.Base.Int.{negsuc}
use gd_rpc.Text.Decimal.{print_nat, atoi}

print_nat-8080 : print_nat 8080 ≡ b'8' ∷ b'0' ∷ b'8' ∷ b'0' ∷ []
unfolding print_nat
print_nat-8080 = refl

print_nat-0 : print_nat 0 ≡ b'0' ∷ []
unfolding print_nat
print_nat-0 = refl

atoi-blank : atoi (b' ' ∷ b'-' ∷ b'4' ∷ b'2' ∷ b'x' ∷ []) ≡ negsuc 41
unfolding atoi
atoi-blank = refl
