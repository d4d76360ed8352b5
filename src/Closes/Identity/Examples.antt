-- ===== src/Closes/Identity/Examples.antt =====
-- The recovery of an order's identity at a concrete open trade.
use system2executor.Prelude.{◌≡◌, refl, none, some, [], ok}
use system2executor.Prelude.Int.{pos}
use system2executor.Prelude.Float.{num}
use system2executor.Message.{Fields, text, number, object, field, end, lookup, if_truthy}
use system2executor.Broker.{client_order_id, nested}
use system2executor.Queue.{Store, publish}
use system2executor.Producer.{Envelope, Stamp, fill_payload, make_envelope, build_message}
use system2executor.Samples.{approved, filled, readers}
use system2executor.Closes.Adoption.{managed_trade_from_broker_trade}
use system2executor.Closes.Identity.{WhenOk, Recovers, managed_trade-Recovers}

abbrev stamp : Stamp
stamp = record { uuid = "u"; utc_now_iso = "2024-01-01T00:00:00Z" }

abbrev confirmation : Envelope
confirmation =
    make_envelope
      (fill_payload (record {
        ams_decision_id = none;
        instrument = "EUR_USD";
        side = "BUY";
        requested_units = num (pos 1000);
        filled_units = num (pos 1000);
        realized_status = "FILLED";
        broker_order_id = some "7";
        broker_trade_id = some "8";
        requested_price = none;
        fill_price = some (num (pos 1001));
        fill_time = none;
        slippage_pips = none;
        stop_loss_price = none;
        take_profit_price = none;
        reject_reason = none;
        model_set_id = none;
      }))
      "k1" "c1" (some "H1") (some "fill_confirmation") stamp

built : build_message approved filled stamp ≡ ok confirmation
unfolding build_message
built = refl

abbrev open_trade : Fields
open_trade = field "id" (text "8") (
    field "price" (number (num (pos 1001)) "1001")
      (field "clientExtensions" (object (field "id" (text "sb-k1") end) "{...}") end))

client :
    nested (if_truthy (lookup "clientExtensions" open_trade)) "id"
    ≡ ok (some (text (client_order_id "k1")))
unfolding lookup client_order_id
client = refl

abbrev empty_outbox : Store Envelope
empty_outbox = record { rows = []; next_seq = 0; next_ack = 0 }

managed_trade-Recovers_example : WhenOk (Recovers approved) (
    managed_trade_from_broker_trade readers 0
      (some (publish "fill_outbox" confirmation empty_outbox))
      open_trade)
managed_trade-Recovers_example =
    managed_trade-Recovers readers 0 open_trade approved filled stamp confirmation empty_outbox
      built refl client
