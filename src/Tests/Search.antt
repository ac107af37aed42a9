-- ===== src/Tests/Search.antt =====
-- The theorems about searches and filters, at a database with two vectors and at a filter.
use torii_db.Base.{[], ◌∷◌, List, pos, refl, arith, ◌≡◌}
use torii_db.Base.{is_space, text_eq, to_upper, length, codes}
use torii_db.Filter.Condition.{Filter, cond, and_, or_, not_, none_left, also}
use torii_db.Filter.Operation.{greater_than, equal_to, like}
use torii_db.Filter.Parser.{ato_filter, parsed}
use torii_db.Filter.Parser.Print.{IsField, IsPrintable, filter_words}
use torii_db.Filter.Parser.Reading.{reading}
use torii_db.Filter.Parser.Split.{ato_filter-joined, joined}
use torii_db.Samples.{sample}
use torii_db.Store.Db.{Db}
use torii_db.Store.Heap.{push, up, swap, less_at, set_elem, fix_root, down, pop}
use torii_db.Store.Heap.Slots.{count}
use torii_db.Store.Search.{
  VsearchItem, scan_top_k, scan_heap, score_of, cosine, cosine_sums, offer, item_less, drain,
}
use torii_db.Store.Search.Best.{ScoreOrder, candidates, is_nan}
use torii_db.Store.Search.Ranking.{TopK, scan_top_k-TopK}
use torii_db.Tests.{ato_filter, runs, age, size, age_entry, size_entry, empty_db}

-- The numbers of the sample's floats are their order.
abbrev sample_order : ScoreOrder sample
sample_order = record { rank = λ f. f; lt-rank = λ a b h k. refl }

abbrev near_db : Db
near_db = record empty_db {
  entries =
      (age, record age_entry { vector = 2 ∷ [] })
      ∷ (size, record size_entry { vector = 1 ∷ [] })
      ∷ [];
}

sample-plain : (items : List VsearchItem) → count (is_nan sample) items ≡ 0
unfolding count is_nan
sample-plain [] = refl
sample-plain (item ∷ items) = ground (arith, sample-plain items)

-- The nearer of the two
nearest : scan_top_k sample (1 ∷ []) [] 1 (pos 20) near_db ≡ size ∷ []
unfolding scan_top_k scan_heap score_of cosine cosine_sums offer item_less push up swap less_at
    set_elem fix_root down drain pop runs
nearest = refl

scan_top_k-TopK_example :
    TopK sample sample_order 1
      (candidates sample (1 ∷ []) [] (pos 20) near_db.entries)
      (scan_top_k sample (1 ∷ []) [] 1 (pos 20) near_db)
scan_top_k-TopK_example =
    scan_top_k-TopK sample sample_order (1 ∷ []) [] 1 (pos 20) near_db (omega arith)
      (sample-plain (candidates sample (1 ∷ []) [] (pos 20) near_db.entries))

-- (age GT 5 OR NOT size EQ 2) AND age LIKE *
abbrev sample_filter : Filter
sample_filter = and_ (
    also
      (or_ (
        also (cond age greater_than (codes "5"))
          (also (not_ (cond size equal_to (codes "2"))) none_left)))
      (also (cond age like (codes "*")) none_left))

sample_filter-IsPrintable : IsPrintable sample_filter
unfolding IsPrintable is_space text_eq to_upper
sample_filter-IsPrintable =
    let age_field : IsField age = record {
      there = refl;
      no_paren = refl;
      plain = (refl, (refl, (refl, tt)));
      no_keyword = refl;
    } in
    let size_field : IsField size = record {
      there = refl;
      no_paren = refl;
      plain = (refl, (refl, (refl, (refl, tt))));
      no_keyword = refl;
    } in
    (
      tt,
      (
        (tt, ((age_field, refl, (refl, tt)), ((size_field, refl, (refl, tt)), tt))),
        ((age_field, refl, (refl, tt)), tt),
      ),
    )

sample_filter-words :
    filter_words sample_filter
    ≡ codes "("
      ∷ age
      ∷ codes "GT"
      ∷ codes "5"
      ∷ codes "OR"
      ∷ codes "NOT"
      ∷ size
      ∷ codes "EQ"
      ∷ codes "2"
      ∷ codes ")"
      ∷ codes "AND"
      ∷ age
      ∷ codes "LIKE"
      ∷ codes "*"
      ∷ []
unfolding filter_words
sample_filter-words = refl

ato_filter-joined_example :
    ato_filter (joined (filter_words sample_filter))
    ≡ parsed sample_filter
        (reading (filter_words sample_filter) (length (filter_words sample_filter)))
ato_filter-joined_example = ato_filter-joined sample_filter sample_filter-IsPrintable
