-- ===== src/Exporters/IncidentopsApi/Fares.antt =====
-- How documents fare in the loop of exporters/incidentops_api.py over the batches, told by the outcomes
-- of the calls that upload them.
use mathlib.Core.List.{Perm, perm_append_comm}
use mathlib.Core.List.Perm
use ops_incident_collector.Prelude.{
  String, true, List, [], ◌∷◌, ◌++◌, ◌+◌, ◌≡◌, one_of, All, All-append, All-map, length, sum_of,
  length-append, sum_of-append, Exc, missing_batch_endpoint, Result, ok, raise, arith, append_assoc,
  subst, sym,
}
use ops_incident_collector.Core.Json.{Value}
use ops_incident_collector.Core.Models.{NormalizedDocument}
use ops_incident_collector.State.Uploads.WellFormed.{IsWellFormed}
use ops_incident_collector.Adapters.Http.{World}
use ops_incident_collector.Exporters.ExportState.{Exporter, Export}
use ops_incident_collector.Exporters.IncidentopsApi.Recorded.{IsQueued}

-- A call that uploads a batch.
abbrev pub Upload : Type 0
Upload = List NormalizedDocument → Export → Result Value × World

-- What a round of the loop leaves of the state, as far as the next call reads it: the requests and
-- the clock of the world after the call, and the collector.
pub record Follows (e : Export) (w : World) (f : Export) : Type 0 where
  pub sent : f.world.sent ≡ w.sent
  pub clock : f.world.clock ≡ w.clock
  pub collector : f.collector_id ≡ e.collector_id

-- The batches whose call returned are accepted, those whose call raised are rejected, call after call.
pub data Fared (upload : Upload)
    : List (List NormalizedDocument)
      → (accepted rejected : List NormalizedDocument) → (e e' : Export) → Type 0 where
  over : {e : Export} → Fared upload [] [] [] e e
  took :
      {batch : List NormalizedDocument} {batches : List (List NormalizedDocument)}
      {accepted rejected : List NormalizedDocument} {e f e' : Export} (v : Value) (w : World)
      → upload batch e ≡ (ok v, w)
      → Follows e w f
      → Fared upload batches accepted rejected f e'
      → Fared upload (batch ∷ batches) (batch ++ accepted) rejected e e'
  lost :
      {batch : List NormalizedDocument} {batches : List (List NormalizedDocument)}
      {accepted rejected : List NormalizedDocument} {e f e' : Export} (exc : Exc) (w : World)
      → upload batch e ≡ (raise exc, w)
      → ¬ (exc ≡ missing_batch_endpoint)
      → Follows e w f
      → Fared upload batches accepted rejected f e'
      → Fared upload (batch ∷ batches) accepted (batch ++ rejected) e e'

pub Fared-append :
    {upload : Upload} {bs cs : List (List NormalizedDocument)} {a r b s : List NormalizedDocument}
    {e f g : Export}
    → Fared upload bs a r e f
    → Fared upload cs b s f g
    → Fared upload (bs ++ cs) (a ++ b) (r ++ s) e g
Fared-append over k = k
Fared-append {upload} {cs = cs} {b = b} {s = s} {g = g}
      (took {batch} {batches} {accepted} {rejected} {e} v w u h t) k =
    subst (λ l. Fared upload (batch ∷ (batches ++ cs)) l (rejected ++ s) e g)
      (sym (append_assoc batch accepted b)) (took v w u h (Fared-append t k))
Fared-append {upload} {cs = cs} {b = b} {s = s} {g = g}
      (lost {batch} {batches} {accepted} {rejected} {e} exc w u n h t) k =
    subst (λ l. Fared upload (batch ∷ (batches ++ cs)) (accepted ++ b) l e g)
      (sym (append_assoc batch rejected s)) (lost exc w u n h (Fared-append t k))

-- How the batches of a list of documents fared between two states. The documents of the batches that
-- Core took are counted in bytes, those of the others as failures, and each of these is noted and
-- has a row in the queue, which keeps the rows that it had.
pub record Accounted (upload : Upload) (x : Exporter) (batches : List (List NormalizedDocument))
    (documents : List NormalizedDocument) (e e' : Export) : Type 0 where
  pub accepted : List NormalizedDocument
  pub rejected : List NormalizedDocument
  pub fared : Fared upload batches accepted rejected e e'
  pub split : Perm (accepted ++ rejected) documents
  pub bytes : e'.uploaded_bytes ≡ e.uploaded_bytes + sum_of (λ d. d.size_bytes) accepted
  pub failures : e'.summary.failed_uploads ≡ e.summary.failed_uploads + length rejected
  pub queued : All (λ d. IsQueued e'.world.store x.source_name d.external_id) rejected
  pub marked : All (λ d. one_of e'.failed_external_ids d.external_id ≡ true) rejected
  pub kept : (s i : String) → IsQueued e.world.store s i → IsQueued e'.world.store s i
  pub noted :
      (i : String) → one_of e.failed_external_ids i ≡ true → one_of e'.failed_external_ids i ≡ true
  pub well_formed : IsWellFormed e'.world.store.failed_uploads

pub Accounted-nil :
    (upload : Upload) (x : Exporter) (e : Export)
    → IsWellFormed e.world.store.failed_uploads
    → Accounted upload x [] [] e e
Accounted-nil upload x e w = record {
  accepted = [];
  rejected = [];
  fared = over;
  split = Perm.refl [];
  bytes = omega arith;
  failures = omega arith;
  queued = tt;
  marked = tt;
  kept = λ s i h. h;
  noted = λ i h. h;
  well_formed = w;
}

perm_swap_blocks : (b r s : List NormalizedDocument) → Perm (b ++ (r ++ s)) (r ++ (b ++ s))
perm_swap_blocks b r s =
    subst (λ l. Perm l (r ++ (b ++ s))) (append_assoc b r s)
      (subst (λ l. Perm ((b ++ r) ++ s) l) (append_assoc r b s)
        (Perm.append_right s (perm_append_comm b r)))

perm_regroup :
    (a r b s : List NormalizedDocument) → Perm ((a ++ b) ++ (r ++ s)) ((a ++ r) ++ (b ++ s))
perm_regroup a r b s =
    rw (append_assoc a b (r ++ s), append_assoc a r (b ++ s))
      (Perm.append_left a (perm_swap_blocks b r s))

pub Accounted-append :
    (upload : Upload) (x : Exporter) (bs cs : List (List NormalizedDocument))
    (ds more : List NormalizedDocument) (e f g : Export)
    → Accounted upload x bs ds e f
    → Accounted upload x cs more f g
    → Accounted upload x (bs ++ cs) (ds ++ more) e g
Accounted-append upload x bs cs ds more e f g h k = record {
  accepted = h.accepted ++ k.accepted;
  rejected = h.rejected ++ k.rejected;
  fared = Fared-append h.fared k.fared;
  split =
      Perm.trans (perm_regroup h.accepted h.rejected k.accepted k.rejected)
        (Perm.append h.split k.split);
  bytes = omega (
    arith,
    h.bytes,
    k.bytes,
    sum_of-append (λ (d : NormalizedDocument). d.size_bytes) h.accepted k.accepted,
  );
  failures = omega (arith, h.failures, k.failures, length-append h.rejected k.rejected);
  queued =
      All-append (λ d. IsQueued g.world.store x.source_name d.external_id) h.rejected k.rejected
        (All-map (λ d. IsQueued f.world.store x.source_name d.external_id)
          (λ d. IsQueued g.world.store x.source_name d.external_id)
          (λ d q. k.kept x.source_name d.external_id q) h.rejected h.queued)
        k.queued;
  marked =
      All-append (λ d. one_of g.failed_external_ids d.external_id ≡ true) h.rejected k.rejected
        (All-map (λ d. one_of f.failed_external_ids d.external_id ≡ true)
          (λ d. one_of g.failed_external_ids d.external_id ≡ true) (λ d q. k.noted d.external_id q)
          h.rejected h.marked)
        k.marked;
  kept = λ s i q. k.kept s i (h.kept s i q);
  noted = λ i q. k.noted i (h.noted i q);
  well_formed = k.well_formed;
}
