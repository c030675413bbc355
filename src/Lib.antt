-- ===== src/Lib.antt =====
-- Verification of arcus-memcached: the in-memory data structures of the cache server, and the helpers
-- that its protocol code parses commands and keys with.
--
-- The default engine (engines/default) finds the item of a key in the item table (assoc.c). An item
-- may hold a list (coll_list.c), whose elements the list commands insert, read and delete by index,
-- a set (coll_set.c), a tree of hash nodes whose chains split and collapse with their size, or a b+tree
-- (coll_btree.c), whose elements have ordered keys and flags that a filter reads.
-- The server reads the keys of a command into memory blocks and cuts them into tokens (mc_util.c),
-- encodes binary keys as hexadecimal text, finds the server that owns a key on the ring of hash points
-- (cluster_config.c), swaps the bytes of 64-bit words, and matches keys with
-- glob patterns (util.c). The generic hash table (genhash.c) serves the server's own maps.
--
-- Files:
--   Prelude    names that the others share; lists measured by native numbers; signed integers.
--   CollList   engines/default/coll_list.c and its structures in engines/default/item_base.h. The chain
--              of elements is a list; a pointer into it is a cursor, the elements before it (nearest
--              first), the element, and those after it, so `next` and `prev` move as the links do.
--              `held` are unlinked elements that readers still refer to, `freed` the addresses given
--              back. The bytes that the slab allocator takes for an element are the parameter `space`,
--              a function of the size of the element. Children: Find, Delete, Insert, Trim, Get, Attr,
--              Bound, Whole; Range has the index arithmetic and the range operations on the item that
--              do_list_item_find found. In do_list_elem_insert the flag says whether the memory for
--              sticky items is full.
--   CollSet    engines/default/coll_set.c and its structures in engines/default/item_base.h. A node is its
--              depth, its count and its slots; a slot is a chain of elements or a child node. The code
--              takes the index of SET_GET_HASHIDX of an unsigned hash where it links an element
--              (get_hashidx), and of an int where it finds or deletes one (signed_hashidx); at depth 7
--              these differ, and the second can be negative. A find or a deletion outside the slots of
--              a node is no result, or the code EINVAL. The theorems that relate the two ask that the
--              depth of every node is less than 7, so that the indexes agree and a split makes no node
--              of depth 8, whose shift by 32 bits C leaves undefined. The bytes that the slab allocator
--              takes for a node and for an element are the parameters `node_space` and `space`; flags say
--              which allocations are granted. The functions that walk the tree are split by what they meet: node, slot, chain.
--              Children: Valid (the shape of the tree), Spread and Link (the way of a new element),
--              Find (the search of a link), Shallow (the depths below 7), Member (the set of values,
--              and the search of do_set_elem_find), Insert, Delete, Traverse, Run (sequences of
--              operations).
--   Btree      engines/default/coll_btree.c: the keys, their comparisons and arithmetic, and the filter on
--              element flags. A key is a 64-bit number or a list of bytes, and the
--              operations that the macros and tables of function pointers select are functions of a
--              selector. The loops of BINARY_DIFF and BINARY_DECR, which run from the last byte, recur
--              before they write a byte. do_btree_elem_filter has no result where the code compares bytes of
--              its buffer that it has not written, or writes behind the end. Children: Order, Diff,
--              Filter; Tree has the tree and the search
--              for the place of an insertion (Shape, Leaf, Reach, Cut, Place). A path is the list of its
--              indexes from the root on; `ndepth` is the height, and `used_count` the number of the nodes
--              below or of the elements. The links between the nodes of one depth are left out, as the
--              search reads none of them.
--   Search     the binary search that coll_btree.c and cluster_config.c write out in each place; `end` is
--              `right + 1`, so an empty range needs no negative number. Its fuel is one round more than
--              there are items, as each round halves the range.
--   Cluster    cluster_config.c: the lookups on the ring of hash points and in the array of nodes. The
--              MD5 of a key is a parameter, `strcmp` is the order of byte strings. Children: Ring, Names.
--   Assoc      engines/default/assoc.c and struct assoc. A mask is its size less one, so `& mask` is
--              the remainder by the size and `>> hashpower` the quotient by hashsize, a power of two.
--              `roottable t b` is the chain of bucket b in table t. Whether realloc and calloc give
--              memory are two flags. Children: Chain (one chain and its split), Map (where an item of
--              a hash stands), Redistribute and Expand (the steps of the
--              expansion), Insert (the table as a map).
--   Genhash    genhash.c. Keys and values are opaque; the functions of struct hash_ops are a record
--              (hashfunc, hasheq, the copies), with its laws as the hypothesis IsLawful. A function
--              pointer that is NULL is `none`. The loop of genhash_delete_all runs on fuel, one more
--              than the entries of the key: each round takes one of them, and the last finds none.
--   Mblck      the memory blocks of mc_util.c. A block is its address, and a pool or a list is the
--              chain of its blocks, with its tail pointer and its counts. What malloc gives is a list
--              of addresses; at its end malloc gives NULL. mblck_list_alloc has no result where the code
--              divides by zero (items of no length, or longer than the body of a block) or reads NULL.
--   Token      the tokens of mc_util.c. A token is an offset into the string and a length. Strings are
--              lists of bytes without the null byte at their end. The loop of token_buff_get runs on
--              fuel, one more than the entries asked for: each round adds 5000 of them, up to the wrap
--              of 32 bits. From 2 ^ 32 - 4999 entries on, a round may wrap, and the loop need not end.
--   Util       the hexadecimal form, the byte order, the name check and the glob match of util.c. The
--              loop of the match runs on fuel, as much as the rounds that its backtracking takes; no fixed
--              bound is chosen. Behind the end of the pattern the code reads a null byte, which no text has.
-- Each component has a module Tests with runs on small inputs and the theorems at concrete inputs.
--
-- The numbers are natural numbers. The remainder is written out where the code relies on it or can wrap
-- (indexes of lists against real_mcnt - 1, the number of blocks, the width of the token buffer, bytes,
-- 64-bit words); the counters of elements, items and blocks, which memory bounds, are not cut to 32 bits. Assertions of the code are
-- hypotheses, or cases that the definitions leave as they are.
--
-- Not modelled: locks and threads; logging; the persistence hooks around the list commands; the search
-- for the item and its release (do_list_item_find, do_set_item_find, do_item_release); the scan of the
-- item table; the reading of the elements of a set; the b+tree beyond its search; keys
-- that span several blocks; the calls of freeKey and freeValue in genhash.c; strtoull and its kin; and
-- the parts of the program that keep other structures or talk to the network, the disk or ZooKeeper.
pub mod Assoc
pub mod Btree
pub mod Cluster
pub mod CollList
pub mod CollSet
pub mod Genhash
pub mod Mblck
pub mod Prelude
pub mod Search
pub mod Token
pub mod Util
