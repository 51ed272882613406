-- ===== src/Strings/Interfaces.antt =====
-- string_type.cpp: what `generateNetworkInterfaceName` returns.
use fans.Base.{
  ◌≤◌, ◌<◌, ◌≡◌, ◌&&◌, refl, true, false, ◌⊎◌, inl, inr, List, [], ◌∷◌, some, length, All, arith,
  Bool-cases,
}
use fans.Base.Text.{Text}
use fans.Exec.{Exec, pure}
use fans.Exec.Keeps.{Keeps, Returned, Keeps-pure}
use fans.Random.{Rng, Source}
use fans.Strings.{Interface, Seeds, u32_index}
use fans.Strings.Fair.{On}
use fans.Strings.Picks.{pick-Keeps, u32_index_small}
use fans.Strings.Network.{is_wireless, wireless, other, pick_or, generate_network_interface_name}

-- An entry of the list has the property.
abbrev pub Among : (Interface → Type 0) → List Interface → Type 0
Among P [] = ⊥
Among P (i ∷ is) = P i ⊎ Among P is

abbrev pub IsWireless : Text → Interface → Type 0
IsWireless name i = (i.is_packet ≡ true) × (is_wireless i.name ≡ true) × (i.name ≡ name)

abbrev pub IsOther : Text → Interface → Type 0
IsOther name i = (i.is_packet ≡ true) × (is_wireless i.name ≡ false) × (i.name ≡ name)

-- The name of a wireless interface if there is one, else of another one, else the empty string.
abbrev pub IsChoice : List Interface → Text → Type 0
IsChoice is name =
    Among (IsWireless name) is
    ⊎ ((All (λ i. (i.is_packet && is_wireless i.name) ≡ false) is × Among (IsOther name) is)
        ⊎ (All (λ i. i.is_packet ≡ false) is × (name ≡ [])))

All-map : (P Q : Text → Type 0) (ts : List Text) → ((t : Text) → P t → Q t) → All P ts → All Q ts
All-map P Q [] f h = tt
All-map P Q (t ∷ ts) f h = (f t h.0, All-map P Q ts f h.1)

wireless-Among : (is : List Interface) → All (λ name. Among (IsWireless name) is) (wireless is)
unfolding wireless
wireless-Among [] = tt
wireless-Among (i ∷ is) = elim (Bool-cases i.is_packet) [
  | inr out ↦ rw out (All-map _ _ (wireless is) (λ t h. inr h) (wireless-Among is))
  | inl packet ↦ elim (Bool-cases (is_wireless i.name)) [
    | inl air ↦
        rw (packet, air)
          (inl (refl, refl, refl), All-map _ _ (wireless is) (λ t h. inr h) (wireless-Among is))
    | inr wire ↦ rw (packet, wire) (All-map _ _ (wireless is) (λ t h. inr h) (wireless-Among is))
  ]
]

other-Among : (is : List Interface) → All (λ name. Among (IsOther name) is) (other is)
unfolding other
other-Among [] = tt
other-Among (i ∷ is) = elim (Bool-cases i.is_packet) [
  | inr out ↦ rw out (All-map _ _ (other is) (λ t h. inr h) (other-Among is))
  | inl packet ↦ elim (Bool-cases (is_wireless i.name)) [
    | inr wire ↦
        rw (packet, wire)
          (inl (refl, refl, refl), All-map _ _ (other is) (λ t h. inr h) (other-Among is))
    | inl air ↦ rw (packet, air) (All-map _ _ (other is) (λ t h. inr h) (other-Among is))
  ]
]

none_wireless :
    (is : List Interface)
    → wireless is ≡ []
    → All (λ i. (i.is_packet && is_wireless i.name) ≡ false) is
unfolding wireless
none_wireless [] e = tt
none_wireless (i ∷ is) e = elim (Bool-cases i.is_packet) [
  | inr out ↦ (ground (arith, out), none_wireless is (ground (arith, out, e)))
  | inl packet ↦ elim (Bool-cases (is_wireless i.name)) [
    | inl air ↦ absurd (ground (arith, packet, air, e))
    | inr wire ↦ (ground (arith, packet, wire), none_wireless is (ground (arith, packet, wire, e)))
  ]
]

none_packet :
    (is : List Interface) → wireless is ≡ [] → other is ≡ [] → All (λ i. i.is_packet ≡ false) is
unfolding wireless other
none_packet [] e f = tt
none_packet (i ∷ is) e f = elim (Bool-cases i.is_packet) [
  | inr out ↦ (out, none_packet is (ground (arith, out, e)) (ground (arith, out, f)))
  | inl packet ↦ elim (Bool-cases (is_wireless i.name)) [
    | inl air ↦ absurd (ground (arith, packet, air, e))
    | inr wire ↦ absurd (ground (arith, packet, wire, f))
  ]
]

length-wireless : (is : List Interface) → length (wireless is) ≤ length is
unfolding wireless
length-wireless [] = omega arith
length-wireless (i ∷ is) = ground (arith, length-wireless is)

length-other : (is : List Interface) → length (other is) ≤ length is
unfolding other
length-other [] = omega arith
length-other (i ∷ is) = ground (arith, length-other is)

module _ (I : Rng → Type 0) where
  -- A choice from a list that may be empty.
  pick_or-Keeps :
      (Q : Text → Type 0) (ts : List Text) (otherwise : Exec Source Text)
      → length ts < 2147483648
      → All Q ts
      → (ts ≡ [] → Keeps (On I) Q otherwise)
      → Keeps (On I) Q (pick_or ts otherwise)
  pick_or-Keeps Q [] otherwise few all k = k refl
  pick_or-Keeps Q (t ∷ ts) otherwise few all k =
      pick-Keeps I Q u32_index t ts u32_index_small (omega (arith, few)) all

  pub generate-IsChoice :
      (is : List Interface)
      → length is < 2147483648
      → Keeps (On I) (IsChoice is) (pick_or (wireless is) (pick_or (other is) (pure [])))
  generate-IsChoice is few =
      pick_or-Keeps _ (wireless is) _ (omega (arith, length-wireless is, few))
        (All-map _ _ (wireless is) (λ t h. inl h) (wireless-Among is))
        (λ e.
          pick_or-Keeps _ (other is) _ (omega (arith, length-other is, few))
            (All-map _ _ (other is) (λ t h. inr (inl (none_wireless is e, h))) (other-Among is))
            (λ f. Keeps-pure _ _ _ (inr (inr (none_packet is e f, refl)))))

-- If getifaddrs answers with fewer than 2^31 entries, generateNetworkInterfaceName returns the name
-- of a wireless packet interface if there is one, of another packet interface if there are others
-- only, and the empty string if there is none.
pub generate_network_interface_name_lem :
    (seeds : Seeds) (is : List Interface) (s : Source)
    → seeds.interfaces ≡ some is
    → length is < 2147483648
    → Returned (λ t. Unit {0}) (IsChoice is) (generate_network_interface_name seeds s)
unfolding generate_network_interface_name
generate_network_interface_name_lem seeds is s e few =
    rw e ((generate-IsChoice (λ r. Unit {0}) is few).run s tt)
