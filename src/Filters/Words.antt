-- ===== src/Filters/Words.antt =====
-- The stop words of docs/ui/lunr.js.
use kubearchive.Prelude.{List, [], ◌∷◌}
use kubearchive.Text.{Text, lit}

abbrev pub stop_words : List Text
stop_words =
    lit "a"
    ∷ lit "able"
    ∷ lit "about"
    ∷ lit "across"
    ∷ lit "after"
    ∷ lit "all"
    ∷ lit "almost"
    ∷ lit "also"
    ∷ lit "am"
    ∷ lit "among"
    ∷ lit "an"
    ∷ lit "and"
    ∷ lit "any"
    ∷ lit "are"
    ∷ lit "as"
    ∷ lit "at"
    ∷ lit "be"
    ∷ lit "because"
    ∷ lit "been"
    ∷ lit "but"
    ∷ lit "by"
    ∷ lit "can"
    ∷ lit "cannot"
    ∷ lit "could"
    ∷ lit "dear"
    ∷ lit "did"
    ∷ lit "do"
    ∷ lit "does"
    ∷ lit "either"
    ∷ lit "else"
    ∷ lit "ever"
    ∷ lit "every"
    ∷ lit "for"
    ∷ lit "from"
    ∷ lit "get"
    ∷ lit "got"
    ∷ lit "had"
    ∷ lit "has"
    ∷ lit "have"
    ∷ lit "he"
    ∷ lit "her"
    ∷ lit "hers"
    ∷ lit "him"
    ∷ lit "his"
    ∷ lit "how"
    ∷ lit "however"
    ∷ lit "i"
    ∷ lit "if"
    ∷ lit "in"
    ∷ lit "into"
    ∷ lit "is"
    ∷ lit "it"
    ∷ lit "its"
    ∷ lit "just"
    ∷ lit "least"
    ∷ lit "let"
    ∷ lit "like"
    ∷ lit "likely"
    ∷ lit "may"
    ∷ lit "me"
    ∷ lit "might"
    ∷ lit "most"
    ∷ lit "must"
    ∷ lit "my"
    ∷ lit "neither"
    ∷ lit "no"
    ∷ lit "nor"
    ∷ lit "not"
    ∷ lit "of"
    ∷ lit "off"
    ∷ lit "often"
    ∷ lit "on"
    ∷ lit "only"
    ∷ lit "or"
    ∷ lit "other"
    ∷ lit "our"
    ∷ lit "own"
    ∷ lit "rather"
    ∷ lit "said"
    ∷ lit "say"
    ∷ lit "says"
    ∷ lit "she"
    ∷ lit "should"
    ∷ lit "since"
    ∷ lit "so"
    ∷ lit "some"
    ∷ lit "than"
    ∷ lit "that"
    ∷ lit "the"
    ∷ lit "their"
    ∷ lit "them"
    ∷ lit "then"
    ∷ lit "there"
    ∷ lit "these"
    ∷ lit "they"
    ∷ lit "this"
    ∷ lit "tis"
    ∷ lit "to"
    ∷ lit "too"
    ∷ lit "twas"
    ∷ lit "us"
    ∷ lit "wants"
    ∷ lit "was"
    ∷ lit "we"
    ∷ lit "were"
    ∷ lit "what"
    ∷ lit "when"
    ∷ lit "where"
    ∷ lit "which"
    ∷ lit "while"
    ∷ lit "who"
    ∷ lit "whom"
    ∷ lit "why"
    ∷ lit "will"
    ∷ lit "with"
    ∷ lit "would"
    ∷ lit "yet"
    ∷ lit "you"
    ∷ lit "your"
    ∷ []
