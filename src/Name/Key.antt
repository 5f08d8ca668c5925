-- ===== src/Name/Key.antt =====
-- metric.go: the keys under which series are stored.
use go_ecoflow_exporter.Base.{Text, underscore, [], ◌∷◌, ◌++◌, ◌≡◌, ◌≢◌, refl, All}

-- No underscore, as in the serial numbers of EcoFlow devices.
abbrev pub IsSerial : Text → Type 0
IsSerial = All (λ c. c ≢ underscore)

-- A key determines the serial number and the metric name in it, if serial numbers have no underscore.
pub key_injective :
    (s t m n : Text)
    → IsSerial s
    → IsSerial t
    → s ++ underscore ∷ m ≡ t ++ underscore ∷ n
    → (s ≡ t) × (m ≡ n)
key_injective [] [] m n hs ht e = (refl, cc)
key_injective [] (d ∷ t) m n hs ht e = absurd (ht.0 (cc))
key_injective (c ∷ s) [] m n hs ht e = absurd (hs.0 (cc))
key_injective (c ∷ s) (d ∷ t) m n hs ht e =
    let heads : c ≡ d = cc in
    let rest = key_injective s t m n hs.1 ht.1 (cc) in (cc (heads, rest.0), rest.1)
