-- ===== src/Examples/Pages.antt =====
-- A run of `append_scan_page` on an open scan.
use dashboard_quip_network.Prelude.{◌≡◌, refl, false, none, some, List, [], ◌∷◌, ok, err}
use dashboard_quip_network.Prelude.Texts.{same_text}
use dashboard_quip_network.Errors.{incomplete_scan}
use dashboard_quip_network.Decimal
use dashboard_quip_network.Decimal.{Text, DecimalString, print_u64}
use dashboard_quip_network.Store.{applied, winners, ScanRow, Store}
use dashboard_quip_network.Store.Meta as Table
use dashboard_quip_network.Store.Scans
use dashboard_quip_network.Store.Scans.{append_scan_page}
use dashboard_quip_network.Store.Scans.Pages.{append_scan_page-replayed}
use dashboard_quip_network.Examples.Values.{upper, forty_two}
use dashboard_quip_network.Examples.Instances.{plain_json}
use dashboard_quip_network.Examples.Commits.{Rows, zero_hash, bound_store}

abbrev name : Text
name = b's' ∷ []

abbrev open_scan : ScanRow
open_scan = record {
  id = name;
  genesis = upper;
  at_hash = zero_hash.text;
  finalized_height = b'4' ∷ b'5' ∷ [];
  domain = winners;
  generation = b'1' ∷ [];
  cursor = none;
  finished = false;
}

abbrev scanning : Store Rows
scanning = record bound_store { db = record (bound_store.db) { scans = open_scan ∷ [] } }

abbrev next_cursor : Text
next_cursor = b'7' ∷ []

abbrev page : List DecimalString
page = forty_two ∷ []

abbrev paged : Store Rows
paged = record scanning {
  db = record (scanning.db) {
    scans = record open_scan { cursor = some next_cursor } ∷ [];
    scan_winners = record { scan_id = name; height = forty_two.text } ∷ [];
  };
}

page_applied :
    append_scan_page plain_json name none (some next_cursor) page scanning ≡ ok (applied, paged)
unfolding append_scan_page Scans.write_page Scans.insert_winners Scans.insert_winner
    Scans.update_scan Scans.find_scan Table.height Table.require_bound Table.generation Table.parsed
    Table.positive same_text Decimal.parse_u64 Decimal.parse_digits print_u64 Decimal.digits_of
page_applied = refl

append_scan_page-replayed_example :
    append_scan_page plain_json name none (some next_cursor) page paged ≡ err incomplete_scan
append_scan_page-replayed_example =
    append_scan_page-replayed plain_json name none (some next_cursor) page scanning paged
      page_applied
