-- ===== src/Caching/Aggregate.antt =====
-- `Aggregate` of kh_common/caching/__init__.py and the three aggregators. The arithmetic on values is
-- a parameter, as Python's depends on their types; values that cannot be added are left out. The two
-- wrappers run the same steps.
pub mod Sums
pub mod Conserved
use kh_common.Prelude.{
  ℕ, zero, suc, ◌+◌, ◌-◌, Option, none, some, List, [], ◌∷◌, Bool, true, false, ltb, if◌then◌else◌,
}
use kh_common.Prelude.Outcome.{Outcome, returned, raised, ◌>>=◌}
use kh_common.Prelude.Dict
use kh_common.Prelude.Dict.{Dict}
use kh_common.Prelude.Text.{Text, Text-discrete}
use kh_common.Exceptions.Handler.{zip_args, without}

-- `over` is the division by a whole number other than 0.
pub record Arithmetic (V : Type 0) : Type 0 where
  pub zero_value : V
  pub plus : V → V → V
  pub minus : V → V → V
  pub times : V → V → V
  pub over : V → ℕ → V
  pub sqrt : V → V

pub data AggregateError : Type 0 where
  zero_division : AggregateError

-- What `Aggregate` uses of an aggregator.
pub record Aggregator (V : Type 0) : Type 1 where
  pub State : Type 0
  pub initial : State
  pub update : Dict Text V → State → State
  pub result : State → Outcome AggregateError (Dict Text V) × State

module _ {V : Type 0} (arithmetic : Arithmetic V) where
  open arithmetic use {zero_value, plus, minus, times, over, sqrt}

  -- `d[k]` of `defaultdict(lambda : 0)`; that the reading stores the 0 makes no difference, since an
  -- assignment follows, or the key is there.
  abbrev pub read : Option V → V
  read none = zero_value
  read (some v) = v

  abbrev pub value : Text → Dict Text V → V
  value k d = read (Dict.get Text-discrete k d)

  -- `SumAggregator.update`
  unfoldable pub sum_update : Dict Text V → Dict Text V → Dict Text V
  sum_update [] held = held
  sum_update ((k, v) ∷ given) held =
      sum_update given (Dict.set Text-discrete k (plus (value k held) v) held)

  abbrev pub sum_aggregator : Aggregator V
  sum_aggregator = record {
    State = Dict Text V;
    initial = [];
    update = sum_update;
    result = λ held. (returned held, []);
  }

  pub record Averages : Type 0 where
    pub held : Dict Text V
    pub count : ℕ

  -- `AverageAggregator.update` after the counting
  unfoldable pub average_entries : ℕ → Dict Text V → Dict Text V → Dict Text V
  average_entries count [] held = held
  average_entries count ((k, v) ∷ given) held =
      let avg = value k held in
      average_entries count given
        (Dict.set Text-discrete k (plus avg (over (minus v avg) count)) held)

  unfoldable pub average_aggregator : Aggregator V
  unfolding average_entries
  average_aggregator = record {
    State = Averages;
    initial = record { held = []; count = 0 };
    update = λ given s. record {
      held = average_entries (suc s.count) given s.held;
      count = suc s.count;
    };
    result = λ s. (returned s.held, record { held = []; count = 0 });
  }

  pub record Deviation : Type 0 where
    pub average : V
    pub count : ℕ
    pub variance : V
    pub deviation : V

  -- `StandardDeviation.__init__`; the count is at least 1 where there is an average.
  unfoldable pub standard_deviation : ℕ → V → V → Outcome AggregateError Deviation
  standard_deviation count avg q = elim (count - 1) [
    | zero ↦ raised zero_division
    | suc n ↦ returned (record {
      average = avg;
      count = count;
      variance = over q (count - 1);
      deviation = sqrt (over q (count - 1));
    })
  ]

  pub record Deviations : Type 0 where
    pub avg : Dict Text V
    pub variance : Dict Text V
    pub count : ℕ

  -- `StandardDeviationAggregator.update` after the counting
  unfoldable pub deviation_entries : ℕ → Dict Text V → Deviations → Deviations
  deviation_entries count [] s = s
  deviation_entries count ((k, v) ∷ given) s =
      let prev_avg = value k s.avg in
      let next_avg = plus prev_avg (over (minus v prev_avg) count) in
      deviation_entries count given (record s {
        avg = Dict.set Text-discrete k next_avg s.avg;
        variance =
            Dict.set Text-discrete k
              (plus (value k s.variance) (times (minus v prev_avg) (minus v next_avg))) s.variance;
      })

  -- The values of the result, as the arguments that they become.
  module _ (pack : Deviation → V) where
    unfoldable pub deviation_results :
        ℕ → Dict Text V → Dict Text V → Outcome AggregateError (Dict Text V)
    unfolding standard_deviation
    deviation_results count variance [] = returned []
    deviation_results count variance ((k, avg) ∷ rest) =
        standard_deviation count avg (value k variance) >>= λ d.
        deviation_results count variance rest >>= λ ds. returned ((k, pack d) ∷ ds)

    -- The clearing is not reached if a deviation cannot be made.
    unfoldable pub deviation_result :
        Deviations
        → Outcome AggregateError (Dict Text V)
        → Outcome AggregateError (Dict Text V) × Deviations
    deviation_result s (returned value) =
        (returned value, record { avg = []; variance = []; count = 0 })
    deviation_result s (raised e) = (raised e, s)

    unfoldable pub deviation_aggregator : Aggregator V
    unfolding deviation_result deviation_results deviation_entries
    deviation_aggregator = record {
      State = Deviations;
      initial = record { avg = []; variance = []; count = 0 };
      update = λ given s. deviation_entries (suc s.count) given (record s { count = suc s.count });
      result = λ s. deviation_result s (deviation_results s.count s.variance s.avg);
    }

-- One call of the wrapper.
pub record Call (V : Type 0) : Type 0 where
  pub args : List V
  pub kwargs : Dict Text V
  pub now : ℕ

-- What the wrapper does: it returns None, runs the function on these arguments, or raises.
pub data Effect (V : Type 0) : Type 0 where
  skipped : Effect V
  ran : Dict Text V → Effect V
  failed : AggregateError → Effect V

-- `kwargs.update(zip(arg_spec.args, args))`
unfoldable pub named : {V : Type 0} → List Text → Call V → Dict Text V
unfolding zip_args
named names c = Dict.update Text-discrete c.kwargs (zip_args names c.args)

-- `{ key: kwargs[key] for key in kwargs.keys() - exclusions }`
unfoldable pub given : {V : Type 0} → List Text → List Text → Call V → Dict Text V
unfolding without named
given exclusions names c = without exclusions (named names c)

module _ {V : Type 0} (aggregator : Aggregator V) (ttl : ℕ) (exclusions names : List Text) where
  open aggregator use {State, update, result}

  pub record Wrapper : Type 0 where
    pub expire : ℕ
    pub held : State

  -- The call of the function with `kwargs.update(aggregator.result())`
  unfoldable pub flush :
      ℕ → Dict Text V → Outcome AggregateError (Dict Text V) × State → Effect V × Wrapper
  flush expire kwargs (returned value, held) =
      (ran (Dict.update Text-discrete kwargs value), record { expire = expire; held = held })
  flush expire kwargs (raised e, held) = (failed e, record { expire = expire; held = held })

  unfoldable pub call : Wrapper → Call V → Effect V × Wrapper
  unfolding flush given named
  call s c =
      let held = update (given exclusions names c) s.held in
      if ltb s.expire c.now
      then flush (c.now + ttl) (named names c) (result held)
      else (skipped, record s { held = held })

  unfoldable pub effects : Wrapper → List (Call V) → List (Effect V)
  unfolding call
  effects s [] = []
  effects s (c ∷ cs) = let (e, t) = call s c in e ∷ effects t cs

  unfoldable pub final : Wrapper → List (Call V) → Wrapper
  unfolding call
  final s [] = s
  final s (c ∷ cs) = final (call s c).1 cs
