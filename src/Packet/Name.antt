-- ===== src/Packet/Name.antt =====
-- The name in a packet, where a zero ends it inside of the field.
use wi_fi_virt_disk.Base.{ℕ, zero, suc, ◌≡◌, refl, ap, List, [], ◌∷◌, ◌++◌, c_string}
use wi_fi_virt_disk.Packet.{Packet, encode, name_of}

-- Some byte of the field is zero.
abbrev pub IsTerminated : List ℕ → Type 0
IsTerminated [] = ⊥
IsTerminated (zero ∷ xs) = Unit {0}
IsTerminated (suc x ∷ xs) = IsTerminated xs

pub c_string-append :
    (field rest : List ℕ) → IsTerminated field → c_string (field ++ rest) ≡ c_string field
c_string-append [] rest t = absurd t
c_string-append (zero ∷ xs) rest t = refl
c_string-append (suc x ∷ xs) rest t = ap (λ ys. suc x ∷ ys) (c_string-append xs rest t)

pub name_of-c_string : (p : Packet) → IsTerminated p.filename → name_of p ≡ c_string p.filename
unfolding name_of encode
name_of-c_string p t = c_string-append p.filename _ t
