-- ===== src/Store/Scans/Pages.antt =====
-- `Store::append_scan_page` of coverage.rs: the cursor after a page.
use dashboard_quip_network.Prelude.{
  ◌≡◌, refl, Bool, true, false, not, ◌&&◌, ◌||◌, Option, none, some, List, [], ◌∷◌, ltb, arith,
  length, ok, err, refuse_if-false, ok_or, is_some, Bool-cases, inl, inr, ◌∙◌, ap, >>=-eq-ok, sym,
}
use dashboard_quip_network.Prelude.Texts.{same_text, same_text-eq, same_text_refl}
use dashboard_quip_network.Errors.{invalid, read_only, network_identity, incomplete_scan}
use dashboard_quip_network.Decimal.{Text, DecimalString, parse_u64, print_u64}
use dashboard_quip_network.Store.{CommitResult, applied, ScanRow, Meta, Store, Json}
use dashboard_quip_network.Store.Meta.{generation, require_bound}
use dashboard_quip_network.Store.Scans.{
  find_scan, update_scan, same_option, insert_winners, encoded, write_page, append_scan_page,
}

find_scan-id :
    (id : Text) (rows : List ScanRow) (row : ScanRow)
    → find_scan id rows ≡ some row
    → same_text row.id id ≡ true
unfolding find_scan
find_scan-id id [] row e = cc e
find_scan-id id (r ∷ rows) row e = elim (Bool-cases (same_text r.id id)) [
  | inl t ↦ ground arith
  | inr f ↦ find_scan-id id rows row (ground arith)
]

-- The row of the scan after an update of its own id.
abbrev moved : Option Text → Bool → ScanRow → ScanRow
moved cursor exhausted r = record r { cursor = cursor; finished = r.finished || exhausted }

find_scan-update_scan :
    (id : Text) (cursor : Option Text) (exhausted : Bool) (rows : List ScanRow) (row : ScanRow)
    → find_scan id rows ≡ some row
    → find_scan id (update_scan id cursor exhausted rows) ≡ some (moved cursor exhausted row)
unfolding find_scan update_scan
find_scan-update_scan id cursor exhausted [] row e = cc e
find_scan-update_scan id cursor exhausted (r ∷ rows) row e = elim (Bool-cases (same_text r.id id)) [
  | inl t ↦
      let same : r ≡ row = ground arith in
      rw (t, t) (ap (λ x. some (moved cursor exhausted x)) same)
  | inr f ↦ rw (f, f) (find_scan-update_scan id cursor exhausted rows row (ground arith))
]

module _ (codec : Json) where
  -- An advanced cursor is another text.
  cursor_moved :
      (expected next : Option Text)
      → (is_some next && same_option next expected) ≡ false
      → (not (is_some next) || not (same_option (encoded codec next) (encoded codec expected)))
        ≡ true
  cursor_moved expected none h = refl
  cursor_moved none (some n) h = refl
  cursor_moved (some m) (some n) h =
      elim (Bool-cases (same_text (codec.cursor_text n) (codec.cursor_text m))) [
        | inr f ↦ rw f
        | inl t ↦
            let texts = same_text-eq (codec.cursor_text n) (codec.cursor_text m) t in
            let options : some n ≡ some m =
              sym (codec.cursor_law n) ∙ ap codec.cursor_of texts ∙ codec.cursor_law m in
            let same : n ≡ m = ground arith in
            let yes : same_text n m ≡ true = rw same (same_text_refl m) in
            absurd (ground (arith, h, yes))
      ]

  found_after :
      (id : Text) (next : Option Text) (row : ScanRow) (scans scans' : List ScanRow)
      → find_scan id scans ≡ some row
      → scans' ≡ update_scan row.id (encoded codec next) (not (is_some next)) scans
      → find_scan id scans' ≡ some (moved (encoded codec next) (not (is_some next)) row)
  found_after id next row scans scans' found sc =
      let own = same_text-eq row.id id (find_scan-id id scans row found) in
      ap (find_scan id) sc
      ∙ ap (λ t. find_scan id (update_scan t (encoded codec next) (not (is_some next)) scans)) own
      ∙ find_scan-update_scan id (encoded codec next) (not (is_some next)) scans row found

  module _ {R : Type 0} where
    -- What a page that is written leaves of the store.
    write_page-lem :
        (row : ScanRow) (expected next : Option Text) (heights : List DecimalString)
        (s s' : Store R) (r : CommitResult)
        → write_page codec row expected next heights s ≡ ok (r, s')
        → (s'.writer ≡ s.writer)
          × (s'.db.meta ≡ s.db.meta)
          × (s'.db.scans ≡ update_scan row.id (encoded codec next) (not (is_some next)) s.db.scans)
    unfolding write_page
    write_page-lem row expected next heights s s' r e =
        let (p0, e0) =
          refuse_if-false (row.finished || not (same_option row.cursor (encoded codec expected)))
            incomplete_scan _ e in
        let (ceiling, p1, e1) =
          >>=-eq-ok (ok_or (parse_u64 row.finalized_height) incomplete_scan) _ e0 in
        let (ws, p2, e2) =
          >>=-eq-ok (insert_winners row.id ceiling heights s.db.scan_winners) _ e1 in
        (ground arith, ground arith, ground arith)

    write_page-refused :
        (row : ScanRow) (expected next : Option Text) (heights : List DecimalString) (s : Store R)
        → (is_some next && same_option next expected) ≡ false
        → write_page codec
            (moved (encoded codec next) (not (is_some next)) row)
            expected
            next
            heights
            s
          ≡ err incomplete_scan
    unfolding write_page
    write_page-refused row expected next heights s h =
        let test = cursor_moved expected next h in
        let refused : ((row.finished || not (is_some next))
              || not (same_option (encoded codec next) (encoded codec expected)))
            ≡ true =
          ground (arith, test) in
        rw refused

    refused_at :
        (id : Text) (expected next : Option Text) (heights : List DecimalString) (s : Store R)
        (bound : Text) (row : ScanRow)
        → not s.writer ≡ false
        → (ltb 1000 (length heights) || (is_some next && same_option next expected)) ≡ false
        → require_bound s.db.meta ≡ ok bound
        → find_scan id s.db.scans ≡ some (moved (encoded codec next) (not (is_some next)) row)
        → not (same_text row.genesis bound) ≡ false
        → same_text (print_u64 (generation s.db.meta row.domain)) row.generation ≡ true
        → append_scan_page codec id expected next heights s ≡ err incomplete_scan
    unfolding append_scan_page
    refused_at id expected next heights s bound row w p m found g current =
        rw (w, p, m, found, g, current)
          (write_page-refused row expected next heights s (ground (arith, p)))

    replayed_at :
        (id : Text) (expected next : Option Text) (heights : List DecimalString) (s s' : Store R)
        (bound : Text) (row : ScanRow)
        → not s.writer ≡ false
        → (ltb 1000 (length heights) || (is_some next && same_option next expected)) ≡ false
        → require_bound s.db.meta ≡ ok bound
        → find_scan id s.db.scans ≡ some row
        → not (same_text row.genesis bound) ≡ false
        → same_text (print_u64 (generation s.db.meta row.domain)) row.generation ≡ true
        → write_page codec row expected next heights s ≡ ok (applied, s')
        → append_scan_page codec id expected next heights s' ≡ err incomplete_scan
    replayed_at id expected next heights s s' bound row w p m found g current written =
        let (same_writer, same_meta, sc) =
          write_page-lem row expected next heights s s' applied written in
        refused_at id expected next heights s' bound row (ap not same_writer ∙ w) p
          (ap require_bound same_meta ∙ m) (found_after id next row s.db.scans s'.db.scans found sc)
          g
          (ap (λ (t : Meta). same_text (print_u64 (generation t row.domain)) row.generation)
              same_meta
            ∙ current)

    -- A page of a scan that was applied is refused as an incomplete scan when the same call is
    -- made again.
    pub append_scan_page-replayed :
        (id : Text) (expected next : Option Text) (heights : List DecimalString) (s s' : Store R)
        → append_scan_page codec id expected next heights s ≡ ok (applied, s')
        → append_scan_page codec id expected next heights s' ≡ err incomplete_scan
    unfolding append_scan_page
    append_scan_page-replayed id expected next heights s s' e =
        let (p0, e0) = refuse_if-false (not s.writer) read_only _ e in
        let (p1, e1) =
          refuse_if-false (ltb 1000 (length heights) || (is_some next && same_option next expected))
            (invalid "oversize or non-advancing scan page") _ e0 in
        let (bound, p2, e2) = >>=-eq-ok (require_bound s.db.meta) _ e1 in
        let (row, p3, e3) = >>=-eq-ok (ok_or (find_scan id s.db.scans) incomplete_scan) _ e2 in
        let (p4, e4) = refuse_if-false (not (same_text row.genesis bound)) network_identity _ e3 in
        let found : find_scan id s.db.scans ≡ some row = ground arith in
        elim (Bool-cases (same_text (print_u64 (generation s.db.meta row.domain)) row.generation)) [
          | inr f ↦ absurd (ground (arith, e4))
          | inl f ↦
              replayed_at id expected next heights s s' bound row p0 p1 p2 found p4 f
                (ground (arith, e4))
        ]
