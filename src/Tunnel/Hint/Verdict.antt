-- ===== src/Tunnel/Hint/Verdict.antt =====
-- src/tunnel.rs: when `firewall_hint` blames the firewall, and for which addresses.
use cf_warp_rust.Base.{
  push_new, Member-push_new, push_new-Distinct, if◌then◌else◌, Bool-cases, Member, Distinct, String,
  ◌≡◌, refl, sym, ap, ◌∙◌, ◌↔◌, ◌⊎◌, inl, inr, true, false, not, ◌||◌, Option, none, some, List, [],
  ◌∷◌, map,
}
use cf_warp_rust.Net.{IpAddr, ip_eq, ip_eq_iff}
use cf_warp_rust.Tunnel.Hint.{
  ErrorKind, contains_text, Failure, Tool, tool_for, is_address_family_unavailable, relevant,
  is_not_permitted, all_not_permitted, collect_ips, rule_for, is_empty, firewall_hint,
}

Member-collect_ips :
    (ip : IpAddr) (fs : List Failure) (ips : List IpAddr)
    → Member ip (collect_ips fs ips)
      ↔ (Member ip ips ⊎ ((f : Failure) × Member f fs × (f.0.ip ≡ ip)))
unfolding collect_ips
Member-collect_ips ip [] ips = (λ m. inl m, λ m. elim m [ inl n ↦ n | inr (f, z, e) ↦ absurd z ])
Member-collect_ips ip (f ∷ fs) ips =
    let ih = Member-collect_ips ip fs (push_new ip_eq f.0.ip ips) in
    let one = Member-push_new ip_eq ip_eq_iff f.0.ip ip ips in
    (
      λ m. elim (ih.0 m) [
        | inl n ↦ elim (one.0 n) [ inl o ↦ inl o | inr e ↦ inr (f, inl refl, sym e) ]
        | inr (g, n, e) ↦ inr (g, inr n, e)
      ],
      λ m. elim m [
        | inl n ↦ ih.1 (inl (one.1 (inl n)))
        | inr (g, inl same, e) ↦
            ih.1 (inl (one.1 (inr (sym e ∙ ap (λ (h : Failure). h.0.ip) same))))
        | inr (g, inr n, e) ↦ ih.1 (inr (g, n, e))
      ],
    )

collect_ips-Distinct :
    (fs : List Failure) (ips : List IpAddr) → Distinct ips → Distinct (collect_ips fs ips)
unfolding collect_ips
collect_ips-Distinct [] ips d = d
collect_ips-Distinct (f ∷ fs) ips d =
    collect_ips-Distinct fs (push_new ip_eq f.0.ip ips)
      (push_new-Distinct ip_eq ip_eq_iff f.0.ip ips d)

module _ {ℓ} {Errno : Type ℓ} (parse : String → Option Errno) (kind_of : Errno → ErrorKind) where
  -- The failure says something about the firewall: it is no missing route or address family.
  abbrev pub IsRelevant : Failure → Type 0
  IsRelevant f = is_address_family_unavailable parse kind_of f.1 ≡ false

  abbrev pub IsNotPermitted : Failure → Type 0
  IsNotPermitted f = contains_text f.1 "Operation not permitted" ≡ true

  Member-relevant :
      (f : Failure) (fs : List Failure)
      → Member f (relevant parse kind_of fs) ↔ (Member f fs × IsRelevant f)
  unfolding relevant
  Member-relevant f [] = (λ m. absurd m, λ m. m.0)
  Member-relevant f (g ∷ fs) =
      let ih = Member-relevant f fs in
      elim (Bool-cases (is_address_family_unavailable parse kind_of g.1)) [
        | inl unavailable ↦ rw unavailable (
          λ m. let (n, r) = ih.0 m in (inr n, r),
          λ m. elim m.0 [
            | inl same ↦
                let e =
                  ap (λ (h : Failure). is_address_family_unavailable parse kind_of h.1) same in
                cc (e, m.1, unavailable)
            | inr n ↦ ih.1 (n, m.1)
          ],
        )
        | inr counts ↦ rw counts (
          λ m. elim m [
            | inl same ↦ (
              inl same,
              ap (λ (h : Failure). is_address_family_unavailable parse kind_of h.1) same ∙ counts,
            )
            | inr n ↦ let (o, r) = ih.0 n in (inr o, r)
          ],
          λ m. elim m.0 [ inl same ↦ inl same | inr n ↦ inr (ih.1 (n, m.1)) ],
        )
      ]

  all_permitted_lem :
      (fs : List Failure)
      → all_not_permitted fs ≡ true
      → (f : Failure) → Member f fs
      → IsNotPermitted f
  unfolding all_not_permitted
  all_permitted_lem [] h f m = absurd m
  all_permitted_lem (g ∷ fs) h f m = elim (Bool-cases (is_not_permitted g.1)) [
    | inr allowed ↦ cc (rw allowed at h)
    | inl yes_ ↦ elim m [
      | inl same ↦ ap (λ (x : Failure). contains_text x.1 "Operation not permitted") same ∙ yes_
      | inr n ↦ all_permitted_lem fs (rw yes_ at h) f n
    ]
  ]

  some_other_lem :
      (fs : List Failure)
      → all_not_permitted fs ≡ false
      → (f : Failure) × Member f fs × (¬ IsNotPermitted f)
  unfolding all_not_permitted
  some_other_lem [] h = cc h
  some_other_lem (g ∷ fs) h = elim (Bool-cases (is_not_permitted g.1)) [
    | inr allowed ↦ (g, inl refl, λ y. cc (y, allowed))
    | inl yes_ ↦ let (f, m, n) = some_other_lem fs (rw yes_ at h) in (f, inr m, n)
  ]

  -- What a hint says, and what the absence of one says, about the failed attempts.
  abbrev pub IsHint : List Failure → Option (List (Tool × IpAddr)) → Type 0
  IsHint fs none =
      ((f : Failure) → Member f fs → ¬ IsRelevant f)
      ⊎ ((f : Failure) × Member f fs × IsRelevant f × (¬ IsNotPermitted f))
  IsHint fs (some rules) =
      ((f : Failure) × Member f fs × IsRelevant f)
      × ((f : Failure) → Member f fs → IsRelevant f → IsNotPermitted f)
      × ((ips : List IpAddr) × (rules ≡ map (λ ip. (tool_for ip, ip)) ips)
          × Distinct ips
          × ((ip : IpAddr)
              → Member ip ips ↔ ((f : Failure) × (Member f fs × IsRelevant f) × (f.0.ip ≡ ip))))

  -- The hint is given exactly if some failure is no matter of a missing route or address family and the system did not
  -- permit any of those to send; it then names each address of those failures once, and no other, with the tool of its
  -- family.
  pub firewall_hint-IsHint :
      (failures : List Failure) → IsHint failures (firewall_hint parse kind_of failures)
  unfolding firewall_hint
  firewall_hint-IsHint failures =
      of (relevant parse kind_of failures) (λ f. Member-relevant f failures)
    where
      of :
          (fs : List Failure)
          → ((f : Failure) → Member f fs ↔ (Member f failures × IsRelevant f))
          → IsHint failures (
              if is_empty fs || not (all_not_permitted fs)
              then none
              else some (map (rule_for) (collect_ips fs [])))
      of [] same = inl (λ f m r. (same f).1 (m, r))
      of (g ∷ fs) same = elim (Bool-cases (all_not_permitted (g ∷ fs))) [
        | inr allowed ↦
            let (f, m, n) = some_other_lem (g ∷ fs) allowed in
            let (o, r) = (same f).0 m in rw allowed (inr (f, o, r, n))
        | inl blocked ↦ rw blocked (
          (g, ((same g).0 (inl refl)).0, ((same g).0 (inl refl)).1),
          λ f m r. all_permitted_lem (g ∷ fs) blocked f ((same f).1 (m, r)),
          (
            collect_ips (g ∷ fs) [],
            refl,
            collect_ips-Distinct (g ∷ fs) [] tt,
            λ ip.
                let c = Member-collect_ips ip (g ∷ fs) [] in
                (
                  λ m. elim (c.0 m) [ inl z ↦ absurd z | inr (f, n, e) ↦ (f, (same f).0 n, e) ],
                  λ m. let (f, n, e) = m in c.1 (inr (f, (same f).1 n, e)),
                ),
          ),
        )
      ]
