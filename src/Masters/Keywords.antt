-- ===== src/Masters/Keywords.antt =====
-- The keywords of the masters that pjsr/lib/WBPPShim.js writes.
use distributed_wbpp.Prelude.{
  ◌≡◌, refl, Bool, true, not, List, [], ◌++◌, Text, arith, keep, append-nil, keep-append,
  keep_of_All, keep_none, keep-All, All, All-map, same_text, has_text,
}
use distributed_wbpp.Windows.{
  Keyword, FrameGroup, group_keywords, is_unique, merge_keywords, comments,
}

keep_twice :
    {A : Type 0} (p : A → Bool) (xs : List A)
    → keep (λ x. not (p x)) (keep (λ x. not (p x)) xs) ≡ keep (λ x. not (p x)) xs
keep_twice p xs = keep_of_All (λ x. not (p x)) _ (keep-All (λ x. not (p x)) xs)

keep_other : {A : Type 0} (p : A → Bool) (xs : List A) → keep p (keep (λ x. not (p x)) xs) ≡ []
keep_other p xs =
    keep_none p _
      (All-map (λ x (h : not (p x) ≡ true). ground arith) _ (keep-All (λ x. not (p x)) xs))

group_names : (g : FrameGroup) → All (λ k. is_unique k ≡ true) (group_keywords g)
unfolding has_text same_text
group_names g = (refl, (refl, (refl, (refl, (refl, tt)))))

-- The comments of a master are none of the five keywords.
pub comments_names : (t v : Text) → All (λ k. not (is_unique k) ≡ true) (comments t v)
unfolding has_text same_text
comments_names t v = (refl, (refl, tt))

merge_lem :
    (added mine old : List Keyword)
    → All (λ k. not (is_unique k) ≡ true) added
    → All (λ k. is_unique k ≡ true) mine
    → (keep is_unique (merge_keywords (added ++ mine) old) ≡ mine)
      × (keep (λ k. not (is_unique k)) (merge_keywords (added ++ mine) old)
          ≡ added ++ keep (λ k. not (is_unique k)) old)
unfolding merge_keywords
merge_lem added mine old h k =
    let other : Keyword → Bool = λ k. not (is_unique k) in
    let none_added =
      keep_none is_unique added
        (All-map (λ k (e : not (is_unique k) ≡ true). ground arith) added h) in
    let none_mine =
      keep_none other mine (All-map (λ k (e : is_unique k ≡ true). ground arith) mine k) in
    (
      rw
          (
            keep-append is_unique (added ++ mine) (keep other old),
            keep-append is_unique added mine,
            keep_other is_unique old,
            none_added,
            keep_of_All is_unique mine k,
          )
          (append-nil mine),
      rw
          (
            keep-append other (added ++ mine) (keep other old),
            keep-append other added mine,
            keep_twice is_unique old,
            none_mine,
            keep_of_All other added h,
            append-nil added,
          )
          refl,
    )

-- The keywords of a written master: each of the five names stands once, with the group's value, whatever the
-- opened image says of it; the others are those that the master adds and those of the image, in their order.
pub merge_keywords_lem :
    (g : FrameGroup) (added old : List Keyword)
    → All (λ k. not (is_unique k) ≡ true) added
    → (keep is_unique (merge_keywords (added ++ group_keywords g) old) ≡ group_keywords g)
      × (keep (λ k. not (is_unique k)) (merge_keywords (added ++ group_keywords g) old)
          ≡ added ++ keep (λ k. not (is_unique k)) old)
merge_keywords_lem g added old h = merge_lem added (group_keywords g) old h (group_names g)
