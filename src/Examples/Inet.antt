-- ===== src/Examples/Inet.antt =====
-- The address parser on concrete texts.
use power_boot.Prelude.{◌+◌, ◌*◌, ◌^◌, ◌≡◌, some, [], ◌∷◌, All, arith}
use power_boot.Prelude.Text.{codes}
use power_boot.Inet.{inet_addr, address_of}
use power_boot.Inet.Scan.{Dotless}
use power_boot.Inet.Fields.{dotted, reference, inet_addr-reference}
use power_boot.Inet.Address.{inet_addr-missing}
use power_boot.Inet.Decimal.{decimal, inet_addr-decimal}

inet_addr-decimal_example :
    inet_addr (some (dotted (decimal 192) (decimal 168 ∷ decimal 1 ∷ decimal 145 ∷ [])))
    ≡ 192 * 2 ^ 24 + 168 * 2 ^ 16 + 1 * 2 ^ 8 + 145
inet_addr-decimal_example =
    inet_addr-decimal 192 168 1 145 (omega arith) (omega arith) (omega arith) (omega arith)

Dotless-ten : All Dotless (codes "10" ∷ codes "0x1F" ∷ [])
Dotless-ten = ground arith

inet_addr-reference_example :
    inet_addr (some (codes "10.0x1F")) ≡ address_of (reference 4 (codes "10" ∷ codes "0x1F" ∷ []))
inet_addr-reference_example =
    inet_addr-reference (codes "10") (codes "0x1F" ∷ []) Dotless-ten (λ e. cc)

inet_addr-missing_example :
    inet_addr (some (codes "10.0x1F")) ≡ inet_addr (some (codes "10.0x1F.0"))
inet_addr-missing_example =
    inet_addr-missing (codes "10") (codes "0x1F" ∷ []) Dotless-ten (λ e. cc) (omega arith)
