-- ===== src/Tests/Snapshots.antt =====
-- bars/snapshot.py at a concrete stream of book events.
use jepa_btc_forecasting.Prelude.{ℕ, ◌≡◌, refl, none, List, [], ◌∷◌, map, All, arith}
use jepa_btc_forecasting.Prelude.Float.{whole, whole_laws}
use jepa_btc_forecasting.Bars.Snapshot.Records.{BookDelta}
use jepa_btc_forecasting.Bars.Snapshot.{dual_book_reads, validate_event}
use jepa_btc_forecasting.Bars.Snapshot.Reference.{IsRebuilt, dual_book_reads-IsRebuilt}
use jepa_btc_forecasting.Bars.Snapshot.Accepted.{IsAccepted, dual_book_reads-IsAccepted}
use jepa_btc_forecasting.Bars.Snapshot.Total.{IsStream, time_of, dual_book_reads-total}

-- The change of the bid is received late, after the ask that follows it.
abbrev quotes : List (BookDelta ℕ)
quotes =
    record { origin_time = 1; received_time = 2; seq = 1; side = "bid"; price = 10; size = 5 }
    ∷ record { origin_time = 2; received_time = 9; seq = 2; side = "bid"; price = 10; size = 7 }
    ∷ record { origin_time = 3; received_time = 4; seq = 3; side = "ask"; price = 12; size = 3 }
    ∷ []

abbrev instants : List ℕ
instants = 4 ∷ 9 ∷ []

dual_book_reads-IsRebuilt_example :
    IsRebuilt whole whole_laws 5 2 quotes instants (dual_book_reads whole quotes instants 5 2)
dual_book_reads-IsRebuilt_example = dual_book_reads-IsRebuilt whole whole_laws quotes instants 5 1

dual_book_reads-IsAccepted_example :
    All (IsAccepted whole 5) (dual_book_reads whole quotes instants 5 2).rows
dual_book_reads-IsAccepted_example = dual_book_reads-IsAccepted whole whole_laws quotes instants 5 1

quotes-IsStream : IsStream whole none quotes
unfolding validate_event
quotes-IsStream = (refl, refl, (refl, refl, (refl, refl, tt)))

dual_book_reads-total_example :
    ((dual_book_reads whole quotes instants 5 2).raised ≡ none)
    × (map (time_of whole) (dual_book_reads whole quotes instants 5 2).rows ≡ instants)
dual_book_reads-total_example =
    dual_book_reads-total whole quotes instants 5 2 quotes-IsStream (refl, (refl, tt)) (omega arith)
