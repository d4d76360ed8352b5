-- ===== src/Broker/Examples.antt =====
-- The theorems of the broker adapter at a broker that fills an order and loses the answer.
use system2executor.Prelude.{
  ℕ, ◌+◌, ◌≤◌, ◌≡◌, refl, Bool, false, none, some, String, List, [], ◌∷◌, Result, ok, err, any,
  count_if, arith,
}
use system2executor.Prelude.Int.{pos}
use system2executor.Prelude.Float.{num}
use system2executor.Message.{Fields, text, number, end, field, lookup, str_of, upper}
use system2executor.Orders.{ConstructedOrder}
use system2executor.Pipeline.Build.{assert_protective_prices}
use system2executor.Pipeline.Build.Protection.{InOrder}
use system2executor.Broker.{
  Fault, transient, Payload, build_payload, quantize_price, client_order_id, order_direction,
  prior_submission_verdict, prior_filled, scan, transaction_client_order_id,
}
use system2executor.Broker.Fills.{Transport, Submission}
use system2executor.Broker.Submission.{submit}
use system2executor.Broker.Reconcile.{is_fill_of}
use system2executor.Broker.Once.{IsFaithful, submit-fills_once}
use system2executor.Broker.Payloads.{IsInside, build_payload-IsInside}
use system2executor.Samples.{readers}

-- 1.10000 with a stop at 1.095004 and a target at 1.115006
abbrev order : ConstructedOrder
order = record {
  idempotency_key = "k1";
  correlation_id = "c1";
  instrument = "EUR_USD";
  side = "BUY";
  units = num (pos 100000000000);
  entry_price = num (pos 110000000);
  stop_loss = num (pos 109500400);
  take_profit = num (pos 111500600);
  atr_value = num (pos 500000);
  rr_ratio = num (pos 3);
}

abbrev submission : Submission
submission = record {
  order = order;
  expected = num (pos 110000000);
  model_set_id = none;
  slippage_tolerance_pips = num (pos 200000000);
}

abbrev fill_of : String → Fields
fill_of id =
    field "type" (text "ORDER_FILL")
      (field "clientOrderID" (text id) (field "price" (number (num (pos 110001000)) "1.10001") end))

-- The state is the list of transactions; the answer to each order is lost.
abbrev lossy : Transport (List Fields)
lossy = record {
  create_order = λ p t. (err transient, fill_of p.client_id ∷ t);
  get_recent_transactions = some (λ t. (ok t, t));
  get_open_trades = λ t. (ok [], t);
  get_trade = λ id t. (ok none, t);
  modify_trade_stop = λ id stop instrument t. (ok tt, t);
}

abbrev fetch : List Fields → Result Fault (List Fields) × List Fields
fetch t = (ok t, t)

abbrev fills : List Fields → ℕ
fills t = count_if (is_fill_of (client_order_id "k1")) t

count_if-none : {A : Type 0} (p : A → Bool) (xs : List A) → any p xs ≡ false → count_if p xs ≡ 0
count_if-none p [] h = refl
count_if-none p (x ∷ xs) h = ground (arith, count_if-none p xs)

shown_fills :
    (t txns : List Fields)
    → (fetch t).0 ≡ ok txns
    → any (is_fill_of (client_order_id "k1")) txns ≡ false
    → fills t ≡ 0
shown_fills t txns e h =
    let same : t ≡ txns = cc e in rw same (count_if-none (is_fill_of (client_order_id "k1")) txns h)

one_more : (p : Payload) (t : List Fields) → fills (fill_of p.client_id ∷ t) ≤ fills t + 1
one_more p t = ground arith

lossy-IsFaithful : IsFaithful lossy fetch (client_order_id "k1") fills
lossy-IsFaithful = record {
  reads = refl;
  create_adds = one_more;
  fetch_keeps = λ t. refl;
  trade_keeps = λ id t. refl;
  stop_keeps = λ id x i t. refl;
  fetch_shows = shown_fills;
}

submit-fills_once_example : fills (submit readers lossy submission 3 5 []).1 ≤ 1
submit-fills_once_example =
    submit-fills_once readers lossy submission fetch fills 3 5 [] lossy-IsFaithful (omega arith)

read_fill :
    prior_submission_verdict (fill_of "sb-k1" ∷ []) "sb-k1" ≡ ok (prior_filled (fill_of "sb-k1"))
unfolding prior_submission_verdict scan transaction_client_order_id lookup str_of upper
read_fill = refl

abbrev payload : Payload
payload = record {
  instrument = "EUR_USD";
  units = pos 1000;
  client_id = client_order_id "k1";
  stop_loss = num (pos 109501000);
  take_profit = num (pos 111500000);
}

order-InOrder : InOrder (order_direction order) 109500400 110000000 111500600
unfolding upper
order-InOrder = (omega arith, omega arith, omega arith)

built : build_payload 5 order ≡ ok payload
unfolding build_payload quantize_price assert_protective_prices upper
built = refl

build_payload-IsInside_example :
    (s' : ℕ) × (t' : ℕ) × (num (pos 109501000) ≡ num (pos s'))
    × (num (pos 111500000) ≡ num (pos t'))
    × InOrder (order_direction order) s' 110000000 t'
    × IsInside (order_direction order) 109500400 111500600 s' t'
build_payload-IsInside_example =
    build_payload-IsInside 5 109500400 110000000 111500600 order payload refl refl refl
      order-InOrder built
