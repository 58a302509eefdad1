-- ===== src/Storage/Values/RoundTrip.antt =====
-- The cluster and its revision are read back as they were stored.
use cke.Prelude.{ℕ, suc, ◌<◌, ◌≡◌, refl, ap, ◌∙◌, String, [], ◌∷◌, some}
use cke.Reboot.BackOff.{int64_half}
use cke.Etcd.{put, Etcd, World, fine, returns, arrive, get_both}
use cke.Etcd.Laws.{IsLawful}
use cke.Storage.{Codec}
use cke.Storage.Leader.{write_by_leader-ok}
use cke.Storage.Steps.{require-ok}
use cke.Storage.Numbers.{format_int}
use cke.Storage.Numbers.RoundTrip.{parse_int-format_int}
use cke.Storage.Values.{put_cluster_with_template_revision, get_cluster_with_revision, revision_in}

module _ (E : Etcd) where
  module _ {A : Type 0} (codec : Codec A) where
    -- What the read finds where both keys hold what was put.
    read_back :
        (c : A) (text : String) (rev n m : ℕ) (w : World E)
        → rev < int64_half
        → codec.unmarshal text ≡ some c
        → (arrive E w).0 ≡ fine
        → E.get (arrive E w).1.state "cluster" ≡ some (record { value = text; mod_revision = n })
        → E.get (arrive E w).1.state "cluster-revision"
          ≡ some (record { value = format_int rev; mod_revision = m })
        → get_cluster_with_revision E codec w ≡ (returns (c, rev), (arrive E w).1)
    unfolding get_cluster_with_revision get_both
    read_back c text rev n m w b d f e g =
        rw (f, e, g, d, revision_in, parse_int-format_int rev b) refl

    -- What PutClusterWithTemplateRevision has stored, GetClusterWithRevision reads back, the cluster with
    -- its revision, where the call arrives and no other client has written the two keys since.
    pub get_cluster_with_revision-put :
        (L : IsLawful E)
        (lossless : (c : A) (text : String)
          → codec.marshal c ≡ some text
          → codec.unmarshal text ≡ some c)
        (c : A) (rev : ℕ) (leader_key : String) (w w' : World E)
        → rev < int64_half
        → put_cluster_with_template_revision E codec c rev leader_key w ≡ (returns tt, w')
        → (arrive E w').0 ≡ fine
        → E.get (arrive E w').1.state "cluster" ≡ E.get w'.state "cluster"
        → E.get (arrive E w').1.state "cluster-revision" ≡ E.get w'.state "cluster-revision"
        → get_cluster_with_revision E codec w' ≡ (returns (c, rev), (arrive E w').1)
    unfolding put_cluster_with_template_revision
    get_cluster_with_revision-put L lossless c rev leader_key w w' b e f same same_revision =
        let (text, is_text, e₁) = require-ok E (codec.marshal c) _ w w' tt e in
        let s = (arrive E w).1.state in
        let ws = put "cluster" text ∷ put "cluster-revision" (format_int rev) ∷ [] in
        let stored = write_by_leader-ok E leader_key ws w w' e₁ in
        let cluster = ap (λ t. E.get t "cluster") stored ∙ L.get-write s ws "cluster" in
        let revision =
          ap (λ t. E.get t "cluster-revision") stored ∙ L.get-write s ws "cluster-revision" in
        read_back c text rev (suc (L.revision s)) (suc (L.revision s)) w' b
          (lossless c text is_text) f (same ∙ cluster) (same_revision ∙ revision)
