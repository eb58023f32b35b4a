-- ===== src/Websocket/Topics.antt =====
-- server/server.cpp, `extract_topics`: which topics a message asks for.
use mathlib.Core.List.{append_assoc}
use datafeed_server.Prelude.{
  ◌≡◌, ◌∙◌, Bool, true, false, ◌&&◌, ◌||◌, String, List, [], ◌∷◌, ◌++◌, if◌then◌else◌, arith, ◌==◌,
  string_key, contains, contains-append, ap, sym,
}
use datafeed_server.Prelude.Text.{found}

-- `if (asked) topics.push_back(topic);`
unfoldable pub push_if : Bool → String → List String
push_if asked topic = if asked then topic ∷ [] else []

unfoldable pub extract_topics : String → List String
unfolding push_if
extract_topics msg =
    push_if (found msg "ticker") "ticker_"
    ++ (push_if (found msg "price") "price_"
        ++ (push_if (found msg "bid") "bid_"
            ++ (push_if (found msg "ask") "ask_"
                ++ (push_if (found msg "dashboard") "dashboard"
                    ++ (push_if (found msg "metrics") "metrics"
                        ++ (push_if (found msg "performance") "performance"
                            ++ (push_if (found msg "exchange") "exchange"
                                ++ (push_if (found msg "system") "system"
                                    ++ (push_if (found msg "network") "network"
                                        ++ (push_if (found msg "feed") "feed"
                                            ++ (push_if (found msg "queues") "queues"
                                                ++ (if found msg "all"
                                                    then "ticker_" ∷ "price_" ∷ "bid_" ∷ "ask_"
                                                      ∷ "dashboard" ∷ "metrics" ∷ "performance"
                                                      ∷ "exchange" ∷ "system" ∷ "network" ∷ "feed"
                                                      ∷ "queues" ∷ []
                                                    else []))))))))))))

-- The specification: each topic with the word that asks for it.
unfoldable pub vocabulary : List (String × String)
vocabulary =
    ("ticker", "ticker_")
    ∷ ("price", "price_")
    ∷ ("bid", "bid_")
    ∷ ("ask", "ask_")
    ∷ ("dashboard", "dashboard")
    ∷ ("metrics", "metrics")
    ∷ ("performance", "performance")
    ∷ ("exchange", "exchange")
    ∷ ("system", "system")
    ∷ ("network", "network")
    ∷ ("feed", "feed")
    ∷ ("queues", "queues")
    ∷ []

-- Does the message hold a word that asks for the topic, or "all"?
unfoldable pub asks_for : String → List (String × String) → String → Bool
asks_for msg [] t = false
asks_for msg ((word, topic) ∷ rest) t =
    (topic == t && (found msg word || found msg "all")) || asks_for msg rest t

-- the two halves of the result, along the table
words_asked : String → List (String × String) → List String
words_asked msg [] = []
words_asked msg ((word, topic) ∷ rest) = push_if (found msg word) topic ++ words_asked msg rest

topics_of : List (String × String) → List String
topics_of [] = []
topics_of ((word, topic) ∷ rest) = topic ∷ topics_of rest

contains-push_if : (b : Bool) (topic t : String) → contains (push_if b topic) t ≡ (b && topic == t)
unfolding push_if contains
contains-push_if b topic t = ground arith

contains-words_asked :
    (msg : String) (table : List (String × String)) (t : String)
    → (contains (words_asked msg table) t
        || contains (if found msg "all" then topics_of table else []) t)
      ≡ asks_for msg table t
unfolding words_asked topics_of asks_for contains
contains-words_asked msg [] t = ground arith
contains-words_asked msg ((word, topic) ∷ rest) t = ground (
  arith,
  contains-append (push_if (found msg word) topic) (words_asked msg rest) t,
  contains-push_if (found msg word) topic t,
  contains-words_asked msg rest t,
)

extract_topics-words_asked :
    (msg : String)
    → extract_topics msg
      ≡ words_asked msg vocabulary ++ (if found msg "all" then topics_of vocabulary else [])
unfolding extract_topics words_asked topics_of vocabulary
extract_topics-words_asked msg = simp append_assoc

-- A topic is among those of a message exactly when the message holds the topic's word or "all", and the
-- topic is one of the twelve of the table.
pub contains-extract_topics :
    (msg t : String) → contains (extract_topics msg) t ≡ asks_for msg vocabulary t
contains-extract_topics msg t =
    ap (λ topics. contains topics t) (extract_topics-words_asked msg)
    ∙ contains-append (words_asked msg vocabulary)
        (if found msg "all" then topics_of vocabulary else []) t
    ∙ contains-words_asked msg vocabulary t

-- the topics that a message can ask for
unfoldable pub is_offered : String → Bool
unfolding topics_of vocabulary contains
is_offered t = contains (topics_of vocabulary) t

asks_for-offered :
    (msg : String) (table : List (String × String)) (t : String)
    → asks_for msg table t ≡ true
    → contains (topics_of table) t ≡ true
unfolding asks_for topics_of contains
asks_for-offered msg [] t h = h
asks_for-offered msg ((word, topic) ∷ rest) t h = ground (arith, asks_for-offered msg rest t)

-- No message asks for a topic outside the table.
pub extract_topics-offered :
    (msg t : String) → contains (extract_topics msg) t ≡ true → is_offered t ≡ true
unfolding is_offered
extract_topics-offered msg t h =
    asks_for-offered msg vocabulary t (sym (contains-extract_topics msg t) ∙ h)
