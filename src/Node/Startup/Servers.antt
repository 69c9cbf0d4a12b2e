-- ===== src/Node/Startup/Servers.antt =====
-- The table that the node starts with.
use resilient_overlay_networ.Base.{
  ℕ, suc, ◌≤◌, ◌≡◌, refl, ap, sym, ◌∙◌, List, [], ◌∷◌, ◌++◌, some, true, false, ltb, length, All,
  arith, length-append, lt→ltb,
}
use mathlib.Core.List.{append_assoc}
use resilient_overlay_networ.Base.Maps.{insert}
use resilient_overlay_networ.Address.{ip_into_uint}
use resilient_overlay_networ.Wire.{Mac}
use resilient_overlay_networ.Servers.{IpInfo, ServerInformation, Rates, modify}
use resilient_overlay_networ.Node.{Node}
use resilient_overlay_networ.Node.Startup.{
  is_space, skip_spaces, span_word, extracted, next_word, atoi, unknown_server,
  initialize_server_information, servers_loop, initialize,
}

-- A word of the information: not empty, and without spaces.
abbrev pub IsWord : List ℕ → Type 0
IsWord [] = ⊥
IsWord (c ∷ cs) = (is_space c ≡ false) × All (λ d. is_space d ≡ false) cs

-- Words, each behind a space.
abbrev pub words_text : List (List ℕ) → List ℕ
words_text [] = []
words_text (w ∷ ws) = b' ' ∷ (w ++ words_text ws)

span-words :
    (cs : List ℕ) (ws : List (List ℕ))
    → All (λ d. is_space d ≡ false) cs
    → span_word (cs ++ words_text ws) ≡ (cs, words_text ws)
unfolding span_word
span-words [] [] h = refl
span-words [] (w ∷ ws) h = refl
span-words (c ∷ cs) ws (h, hs) = rw (span_word, h, span-words cs ws hs) refl

extracted-word :
    (word cs : List ℕ) (ws : List (List ℕ))
    → IsWord cs
    → extracted word (skip_spaces (cs ++ words_text ws)) ≡ (cs, words_text ws)
unfolding skip_spaces
extracted-word word [] ws h = absurd h
extracted-word word (c ∷ cs) ws (h, hs) = rw h (span-words (c ∷ cs) ws (h, hs))

next_word-first :
    (word cs : List ℕ) (ws : List (List ℕ))
    → IsWord cs
    → next_word word (cs ++ words_text ws) ≡ (cs, words_text ws)
unfolding next_word
next_word-first word cs ws h = extracted-word word cs ws h

next_word-next :
    (word cs : List ℕ) (ws : List (List ℕ))
    → IsWord cs
    → next_word word (words_text (cs ∷ ws)) ≡ (cs, words_text ws)
unfolding next_word skip_spaces
next_word-next word cs ws h = extracted-word word cs ws h

modify-front :
    {A : Type 0} (front rest : List A) (x : A) (f : A → A)
    → modify (length front) f (front ++ x ∷ rest) ≡ front ++ f x ∷ rest
unfolding modify
modify-front [] rest x f = refl
modify-front (y ∷ front) rest x f = ap (λ t. y ∷ t) (modify-front front rest x f)

-- The ids of the servers, by their addresses.
abbrev pub ids : ℕ → List (List ℕ) → List (ℕ × ℕ) → List (ℕ × ℕ)
ids i [] m = m
ids i (w ∷ ws) m = ids (suc i) ws (insert (ip_into_uint w) i m)

module _ {R : Type 0} (r : Rates R) where
  -- What an entry is to hold for the server with the address in `w`: that address and its text, no time
  -- and no packets counted, and for both tables the gateway as next hop with the greatest time and the
  -- rate of loss 1. The last ping's time and whether it was answered are not touched.
  abbrev pub just_named : IpInfo → List ℕ → ServerInformation R → ServerInformation R
  just_named gateway w x = record {
    ip = record { uint = ip_into_uint w; str = w };
    ping_lost_rate = r.one;
    ping_sent = 0;
    ping_received = 0;
    rtt_time = 65535;
    sequence_id = 0;
    ping_lost_numbers = 0;
    ping_send_time = x.ping_send_time;
    is_received_last_ping = x.is_received_last_ping;
    forwarding_table = record {
      ip_next_hop_rtt = gateway;
      ip_next_hop_lost = gateway;
      rtt_time = 65535;
      lost_rate = r.one;
      is_active = false;
    };
    learning_table = record {
      ip_next_hop_rtt = gateway;
      ip_next_hop_lost = gateway;
      rtt_time = 65535;
      lost_rate = r.one;
      is_active = false;
    };
  }

  -- The first entries of the array, one for each server in their order, and the rest as it was.
  abbrev pub started :
      IpInfo → List (List ℕ) → List (ServerInformation R) → List (ServerInformation R)
  started gateway [] xs = xs
  started gateway (w ∷ ws) [] = []
  started gateway (w ∷ ws) (x ∷ xs) = just_named gateway w x ∷ started gateway ws xs

  -- A node with this array and these ids.
  abbrev with_servers : Node R → List (ServerInformation R) → List (ℕ × ℕ) → Node R
  with_servers n xs m = record n { table = record n.table { server_infoes = xs }; ip_to_id = m }

  information-front :
      (i : ℕ) (w : List ℕ) (n : Node R) (front xs : List (ServerInformation R))
      (x : ServerInformation R) (m : List (ℕ × ℕ))
      → i ≡ length front
      → initialize_server_information r i w (with_servers n (front ++ x ∷ xs) m)
        ≡ some (
            with_servers n
              (front ++ unknown_server r n.table.ip_gateway w x ∷ xs)
              (insert (ip_into_uint w) i m))
  unfolding initialize_server_information
  information-front i w n front xs x m k =
      let has : ltb (length front) (length (front ++ x ∷ xs)) ≡ true =
        lt→ltb _ _ (omega (arith, length-append front (x ∷ xs))) in
      rw (k, has, modify-front front xs x (unknown_server r n.table.ip_gateway w)) refl

  loop_step :
      (k i : ℕ) (word word' stream stream' : List ℕ) (n n' : Node R)
      → next_word word stream ≡ (word', stream')
      → initialize_server_information r i word' n ≡ some n'
      → servers_loop r (suc k) i word stream n ≡ servers_loop r k (suc i) word' stream' n'
  unfolding servers_loop
  loop_step k i word word' stream stream' n n' e e' = rw (e, e') refl

  servers_loop-words :
      (ws : List (List ℕ)) (i : ℕ) (word : List ℕ) (n : Node R)
      (front xs : List (ServerInformation R)) (m : List (ℕ × ℕ))
      → All IsWord ws
      → i ≡ length front
      → length ws ≤ length xs
      → servers_loop r (length ws) i word (words_text ws) (with_servers n (front ++ xs) m)
        ≡ some (with_servers n (front ++ started n.table.ip_gateway ws xs) (ids i ws m))
  unfolding servers_loop
  servers_loop-words [] i word n front xs m h k l = refl
  servers_loop-words (w ∷ ws) i word n front [] m h k l = absurd (omega arith)
  servers_loop-words (w ∷ ws) i word n front (x ∷ xs) m (h, hs) k l =
      let y = unknown_server r n.table.ip_gateway w x in
      let m' = insert (ip_into_uint w) i m in
      let next = λ (l : List (ServerInformation R)). with_servers n l m' in
      loop_step (length ws) i word w _ _ _ _ (next_word-next word w ws h)
        (information-front i w n front xs x m k)
      ∙ ap (λ l. servers_loop r (length ws) (suc i) w (words_text ws) (next l))
          (sym (append_assoc front (y ∷ []) xs))
      ∙ servers_loop-words ws (suc i) w n (front ++ y ∷ []) xs m' hs
          (omega (arith, length-append front (y ∷ []))) (omega arith)
      ∙ ap (λ l. some (with_servers n l (ids (suc i) ws m')))
          (append_assoc front (y ∷ []) (started n.table.ip_gateway ws xs))

  initialize_steps :
      (mac_into_byte : List ℕ → Mac) (ip mac numbers : List ℕ) (ws : List (List ℕ)) (count : ℕ)
      (n : Node R)
      → IsWord ip
      → IsWord mac
      → IsWord numbers
      → atoi numbers ≡ some count
      → initialize r mac_into_byte (ip ++ words_text (mac ∷ numbers ∷ ws)) n
        ≡ servers_loop r count 0 [] (words_text ws) (record n {
          table = record n.table {
            number_of_servers = count;
            number_of_all_servers = count;
            ip_gateway = record { uint = ip_into_uint ip; str = ip };
          };
          mac_gateway = mac_into_byte mac;
        })
  unfolding initialize
  initialize_steps mac_into_byte ip mac numbers ws count n hi hm hn e =
      rw
        (
          next_word-first [] ip (mac ∷ numbers ∷ ws) hi,
          next_word-next [] mac (numbers ∷ ws) hm,
          next_word-next [] numbers ws hn,
          e,
        )
        refl

  -- The information names the gateway's addresses, the number of the servers and the servers, as words
  -- behind one space each. The node then starts with just these servers, in their order and by their
  -- ids. Each entry holds the server's address and its text, the time 65535 and the loss rate 1, zero for
  -- all its counters, and in both tables the gateway as next hop, with that time and rate. The rest of the
  -- array stays as it was; the array has room for the servers.
  pub initialize-servers :
      (mac_into_byte : List ℕ → Mac) (ip mac numbers : List ℕ) (ws : List (List ℕ)) (n : Node R)
      → IsWord ip
      → IsWord mac
      → IsWord numbers
      → All IsWord ws
      → atoi numbers ≡ some (length ws)
      → length ws ≤ length n.table.server_infoes
      → let gateway : IpInfo = record { uint = ip_into_uint ip; str = ip } in
        initialize r mac_into_byte (ip ++ words_text (mac ∷ numbers ∷ ws)) n
        ≡ some (record n {
          table = record {
            server_infoes = started gateway ws n.table.server_infoes;
            number_of_servers = length ws;
            number_of_all_servers = length ws;
            ip_gateway = gateway;
          };
          mac_gateway = mac_into_byte mac;
          ip_to_id = ids 0 ws n.ip_to_id;
        })
  initialize-servers mac_into_byte ip mac numbers ws n hi hm hn hs e room =
      let n' : Node R = record n {
        table = record n.table {
          number_of_servers = length ws;
          number_of_all_servers = length ws;
          ip_gateway = record { uint = ip_into_uint ip; str = ip };
        };
        mac_gateway = mac_into_byte mac;
      } in
      initialize_steps mac_into_byte ip mac numbers ws (length ws) n hi hm hn e
      ∙ servers_loop-words ws 0 [] n' [] n.table.server_infoes n.ip_to_id hs refl room
