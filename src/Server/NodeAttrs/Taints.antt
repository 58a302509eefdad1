-- ===== src/Server/NodeAttrs/Taints.antt =====
-- The taints after an update.
use text.Mathlib.TextPositions.{eq_refl}
use cke.Prelude.{
  String, ◌≡◌, refl, sym, inl, inr, Bool, true, false, not, ◌&&◌, ◌||◌, List, [], ◌∷◌, ◌++◌, some,
  any, keep_if, str_eq, eq_iff, arith, Memᴰ, if◌then◌else◌, ap, ◌∙◌, subst, Bool-cases, mem-any,
}
use cke.Cluster.{Node, Taint}
use cke.Server.NodeAttrs.{
  last_taint, has_taint, is_internal, cke_taint_master, stray_taint, taints_differ, taints_outdated,
  new_taints, master_taint,
}
use cke.Server.NodeAttrs.Maps.{
  any-false, any-append, any-keep_if, last_taint-append, last_taint-none, last_taint_of_mem,
}
use cke.Server.NodeAttrs.Labels.{IsProper, master_internal}

module _ (n : Node) (p : IsProper n) where
  abbrev kept : List Taint → List Taint
  kept taints = keep_if (λ t. not (is_internal t.key n || has_taint t.key n.taints)) taints

  abbrev by_cp : Bool → List Taint
  by_cp b = if b then master_taint ∷ [] else []

  has_taint-kept :
      (k : String) (taints : List Taint)
      → (is_internal k n || has_taint k n.taints) ≡ true
      → has_taint k (kept taints) ≡ false
  has_taint-kept k taints h = any-keep_if _ _ taints (λ t e. ground (
    arith,
    eq_iff t.key k,
    λ (s : t.key ≡ k). ap (λ j. is_internal j n || has_taint j n.taints) s,
  ))

  has_taint_of_mem : (ts : List Taint) {t : Taint} → Memᴰ t ts → has_taint t.key ts ≡ true
  has_taint_of_mem ts {t} i = mem-any (λ (s : Taint). str_eq s.key t.key) ts i (eq_refl t.key)

  not_master_taint : {t : Taint} → Memᴰ t n.taints → str_eq cke_taint_master t.key ≡ false
  not_master_taint {t} i = elim (Bool-cases (str_eq cke_taint_master t.key)) [
    | inr f ↦ f
    | inl e ↦
        let same : cke_taint_master ≡ t.key = (eq_iff cke_taint_master t.key).0 e in
        let h : has_taint cke_taint_master n.taints ≡ true =
          subst (λ j. has_taint j n.taints ≡ true) (sym same) (has_taint_of_mem n.taints i) in
        cc (sym h ∙ p.no_master_taint)
  ]

  has_taint-rest :
      (k : String) (b : Bool) (taints : List Taint)
      → (is_internal k n || has_taint k n.taints) ≡ true
      → str_eq cke_taint_master k ≡ false
      → has_taint k (kept taints ++ by_cp b) ≡ false
  has_taint-rest k b taints h m =
      rw (any-append (λ (t : Taint). str_eq t.key k) (kept taints) (by_cp b))
        (ground (arith, has_taint-kept k taints h))

  read_taint :
      (b : Bool) (taints : List Taint) {t : Taint}
      → Memᴰ t n.taints
      → last_taint t.key (n.taints ++ (kept taints ++ by_cp b)) ≡ some t
  read_taint b taints {t} i =
      rw
        (
          last_taint-append t.key n.taints (kept taints ++ by_cp b),
          last_taint-none t.key (kept taints ++ by_cp b) (
              has_taint-rest t.key b taints (ground (arith, has_taint_of_mem n.taints i))
                (not_master_taint i)),
          last_taint_of_mem n.taints p.taint_keys i,
        )
        refl

  taints_same :
      (b : Bool) (taints : List Taint)
      → taints_differ n.taints (n.taints ++ (kept taints ++ by_cp b)) ≡ false
  taints_same b taints =
      any-false _ n.taints
        (λ t i. rw (read_taint b taints i, eq_refl t.value, eq_refl t.effect) refl)

  no_stray_taint :
      (b : Bool) (taints : List Taint)
      → any (stray_taint n) (n.taints ++ (kept taints ++ by_cp b)) ≡ false
  no_stray_taint b taints =
      rw
        (
          any-append (stray_taint n) n.taints (kept taints ++ by_cp b),
          any-append (stray_taint n) (kept taints) (by_cp b),
          any-false (stray_taint n) n.taints (λ t i. ground (arith, has_taint_of_mem n.taints i)),
        )
        (ground (
          arith,
          any-keep_if (stray_taint n)
              (λ (t : Taint). not (is_internal t.key n || has_taint t.key n.taints)) taints
              (λ t e. ground arith),
          master_internal n,
        ))

  master_taint_read :
      (taints : List Taint)
      → last_taint cke_taint_master (n.taints ++ (kept taints ++ by_cp true)) ≡ some master_taint
  master_taint_read taints =
      rw
        (
          last_taint-append cke_taint_master n.taints (kept taints ++ by_cp true),
          last_taint-append cke_taint_master (kept taints) (by_cp true),
        )
        refl

  no_master_taint_read :
      (taints : List Taint)
      → has_taint cke_taint_master (n.taints ++ (kept taints ++ by_cp false)) ≡ false
  no_master_taint_read taints =
      rw
        (
          any-append (λ (t : Taint). str_eq t.key cke_taint_master) n.taints
              (kept taints ++ by_cp false),
          p.no_master_taint,
          any-append (λ (t : Taint). str_eq t.key cke_taint_master) (kept taints) (by_cp false),
          has_taint-kept cke_taint_master taints (rw (master_internal n) refl),
        )
        refl

  pub taints_fresh :
      (taint_cp : Bool) (taints : List Taint)
      → taints_outdated n taint_cp (new_taints n taint_cp taints) ≡ false
  unfolding taints_outdated new_taints
  taints_fresh taint_cp taints = ground (
    arith,
    taints_same (taint_cp && n.control_plane) taints,
    no_stray_taint (taint_cp && n.control_plane) taints,
    master_taint_read taints,
    no_master_taint_read taints,
  )
