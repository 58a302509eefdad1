-- ===== src/Server/NodeAttrs/Labels.antt =====
-- The labels and annotations after an update.
use text.Mathlib.TextPositions.{eq_refl}
use cke.Prelude.{
  String, ◌≡◌, refl, sym, inl, inr, true, false, not, some, any, keep_if, str_eq, eq_iff, arith,
  Memᴰ, ◌∙◌, subst, Bool-cases,
}
use cke.Params.{find_key, is_value}
use cke.Cluster.{Node}
use cke.Server.NodeAttrs.{
  Attrs, has_attr, has_taint, set_attr, copy_attrs, is_internal, cke_label_master, cke_taint_master,
  stray_label, stray_annotation, attrs_differ, labels_outdated, annotations_outdated, new_labels,
  new_annotations,
}
use cke.Server.NodeAttrs.Maps.{
  any-false, any-keep_if, Keys, find_key-set_attr, find_key-copy_attrs, find_key-copied,
  any-set_attr, any-copy_attrs, has_attr-of_mem, has_attr_of_find_key, find_key-keep_if, TaintKeys,
}

-- What the configuration of a node must not do: define an attribute that CKE itself sets, or two
-- taints of one key. Its labels and annotations are maps.
pub record IsProper (n : Node) : Type 0 where
  pub label_keys : Keys n.labels
  pub annotation_keys : Keys n.annotations
  pub taint_keys : TaintKeys n.taints
  pub no_master_label : has_attr cke_label_master n.labels ≡ false
  pub no_master_taint : has_taint cke_taint_master n.taints ≡ false

is_value_self : (v : String) → is_value (some v) v ≡ true
is_value_self v = eq_refl v

pub master_internal : (n : Node) → is_internal cke_label_master n ≡ true
unfolding is_internal
master_internal n = refl

attrs_differ_copied : (m src : Attrs) → Keys src → attrs_differ src (copy_attrs m src) ≡ false
attrs_differ_copied m src d =
    any-false _ src (λ (k, v) i. rw (find_key-copied m src d i, eq_refl v) refl)

module _ (n : Node) (p : IsProper n) where
  abbrev outside : Attrs → Attrs
  outside m = keep_if (λ (k, v). not (is_internal k n)) m

  stray_label-copied :
      (labels : Attrs)
      → any (λ (k, v). stray_label n k) (copy_attrs (outside labels) n.labels) ≡ false
  stray_label-copied labels =
      any-copy_attrs (stray_label n) (outside labels) n.labels
        (any-keep_if _ _ labels (λ (k, v) e. ground arith))
        (any-false _ n.labels (λ (k, v) i. ground (arith, has_attr-of_mem n.labels i)))

  stray_annotation-copied :
      (annotations : Attrs)
      → any (λ (k, v). stray_annotation n k) (copy_attrs (outside annotations) n.annotations)
        ≡ false
  stray_annotation-copied annotations =
      any-copy_attrs (stray_annotation n) (outside annotations) n.annotations
        (any-keep_if _ _ annotations (λ (k, v) e. ground arith))
        (any-false _ n.annotations (λ (k, v) i. ground (arith, has_attr-of_mem n.annotations i)))

  pub annotations_fresh :
      (annotations : Attrs) → annotations_outdated n (new_annotations n annotations) ≡ false
  unfolding annotations_outdated new_annotations
  annotations_fresh annotations =
      rw
        (
          attrs_differ_copied (outside annotations) n.annotations p.annotation_keys,
          stray_annotation-copied annotations,
        )
        refl

  abbrev copied : Attrs → Attrs
  copied labels = copy_attrs (outside labels) n.labels

  not_master : {k v : String} → Memᴰ (k, v) n.labels → str_eq cke_label_master k ≡ false
  not_master {k} {v} i = elim (Bool-cases (str_eq cke_label_master k)) [
    | inr f ↦ f
    | inl t ↦
        let same : cke_label_master ≡ k = (eq_iff cke_label_master k).0 t in
        let h : has_attr cke_label_master n.labels ≡ true =
          subst (λ j. has_attr j n.labels ≡ true) (sym same) (has_attr-of_mem n.labels i) in
        cc (sym h ∙ p.no_master_label)
  ]

  differ_master :
      (labels : Attrs)
      → attrs_differ n.labels (set_attr cke_label_master "true" (copied labels)) ≡ false
  differ_master labels = any-false _ n.labels (λ (k, v) i.
      rw
        (
          find_key-set_attr k cke_label_master "true" (copied labels),
          not_master i,
          find_key-copied (outside labels) n.labels p.label_keys i,
          eq_refl v,
        )
        refl)

  master_read :
      (labels : Attrs)
      → is_value
          (find_key cke_label_master (set_attr cke_label_master "true" (copied labels)))
          "true"
        ≡ true
  master_read labels =
      rw (find_key-set_attr cke_label_master cke_label_master "true" (copied labels)) refl

  stray_master : stray_label n cke_label_master ≡ false
  stray_master = rw (master_internal n) refl

  no_master_copied : (labels : Attrs) → has_attr cke_label_master (copied labels) ≡ false
  no_master_copied labels = has_attr_of_find_key cke_label_master (copied labels) (
      find_key-copy_attrs cke_label_master (outside labels) n.labels p.no_master_label
      ∙ find_key-keep_if (λ k. not (is_internal k n)) cke_label_master labels
          (rw (master_internal n) refl))

  pub labels_fresh : (labels : Attrs) → labels_outdated n (new_labels n labels) ≡ false
  unfolding labels_outdated new_labels
  labels_fresh labels = ground (
    arith,
    differ_master labels,
    master_read labels,
    any-set_attr (stray_label n) cke_label_master "true" (copied labels) stray_master
        (stray_label-copied labels),
    no_master_copied labels,
    stray_label-copied labels,
    attrs_differ_copied (outside labels) n.labels p.label_keys,
  )
