-- ===== src/Network/Examples.antt =====
-- A name whose last label is shared.
use leblibc.Prelude.{ℕ, ◌≡◌, refl, List, [], ◌∷◌, some, arith}
use leblibc.Prelude.Int.{pos, negsuc}
use leblibc.Network.{Expanded, fail, dn_expand}
use leblibc.Network.Expand.{IsResult, dn_expand_lem}

-- The name `c`, and `ab` with a pointer to it.
abbrev message : List ℕ
message = 1 ∷ 99 ∷ 0 ∷ 2 ∷ 97 ∷ 98 ∷ 0xc0 ∷ 0 ∷ []

shared :
    dn_expand message 3 (pos 5) ≡ some (record { ret = pos 5; dest = 97 ∷ 98 ∷ 46 ∷ 99 ∷ 0 ∷ [] })
unfolding dn_expand
shared = refl

-- There is no room for the zero.
short : dn_expand message 3 (pos 4) ≡ some (fail (97 ∷ 98 ∷ 46 ∷ []))
unfolding dn_expand
short = refl

-- A pointer to itself.
circular : dn_expand (0xc0 ∷ 0 ∷ []) 0 (pos 9) ≡ some (fail [])
unfolding dn_expand
circular = refl

dn_expand_lem_example :
    (r : Expanded) × (dn_expand message 3 (pos 5) ≡ some r) × IsResult message 5 3 3 (negsuc 0) [] r
dn_expand_lem_example = dn_expand_lem message 3 (pos 5) (omega arith)
