-- ===== src/Lexicon/Words.antt =====
-- The word lists of internal/voice/turn_detector.go, barge_in.go and semantic_task_family.go, and the
-- sets of runes that they trim and test.
use agent_server.Prelude.{List, [], ◌∷◌, ◌++◌}
use agent_server.Text.{Text, codes}

abbrev pub chinese_incomplete_suffixes : List Text
chinese_incomplete_suffixes =
    codes "然后"
    ∷ codes "然后呢"
    ∷ codes "还有"
    ∷ codes "还有呢"
    ∷ codes "而且"
    ∷ codes "或者"
    ∷ codes "但是"
    ∷ codes "不过"
    ∷ codes "因为"
    ∷ codes "所以"
    ∷ codes "如果"
    ∷ codes "帮我"
    ∷ codes "请帮我"
    ∷ codes "麻烦帮我"
    ∷ codes "把"
    ∷ codes "给"
    ∷ codes "到"
    ∷ codes "调到"
    ∷ codes "切到"
    ∷ codes "设到"
    ∷ codes "就是"
    ∷ codes "那个"
    ∷ codes "这个"
    ∷ codes "再"
    ∷ codes "先"
    ∷ []

abbrev pub chinese_standalone_hesitations : List Text
chinese_standalone_hesitations =
    codes "嗯"
    ∷ codes "嗯嗯"
    ∷ codes "呃"
    ∷ codes "额"
    ∷ codes "啊"
    ∷ codes "啊啊"
    ∷ codes "哦"
    ∷ codes "噢"
    ∷ codes "诶"
    ∷ codes "欸"
    ∷ codes "唉"
    ∷ codes "那个"
    ∷ codes "这个"
    ∷ codes "就是"
    ∷ codes "然后"
    ∷ codes "还有"
    ∷ []

abbrev pub english_incomplete_tokens : List Text
english_incomplete_tokens =
    codes "and"
    ∷ codes "or"
    ∷ codes "but"
    ∷ codes "if"
    ∷ codes "when"
    ∷ codes "because"
    ∷ codes "to"
    ∷ codes "for"
    ∷ codes "with"
    ∷ codes "then"
    ∷ codes "please"
    ∷ []

abbrev pub english_standalone_hesitations : List Text
english_standalone_hesitations =
    codes "uh" ∷ codes "um" ∷ codes "hmm" ∷ codes "mm" ∷ codes "erm" ∷ []

abbrev pub chinese_correction_suffixes : List Text
chinese_correction_suffixes =
    codes "不对"
    ∷ codes "不是"
    ∷ codes "我是说"
    ∷ codes "我改一下"
    ∷ codes "改成"
    ∷ codes "换成"
    ∷ codes "等一下"
    ∷ codes "等等"
    ∷ codes "等会"
    ∷ codes "先别"
    ∷ []

abbrev pub english_correction_tokens : List Text
english_correction_tokens = codes "wait" ∷ codes "sorry" ∷ codes "actually" ∷ codes "instead" ∷ []

abbrev pub backchannel_tokens : List Text
backchannel_tokens =
    codes "嗯"
    ∷ codes "嗯嗯"
    ∷ codes "啊"
    ∷ codes "哦"
    ∷ codes "喔"
    ∷ codes "唉"
    ∷ codes "欸"
    ∷ codes "哎"
    ∷ codes "好"
    ∷ codes "好的"
    ∷ codes "行"
    ∷ codes "行吧"
    ∷ codes "可以"
    ∷ codes "收到"
    ∷ codes "知道了"
    ∷ codes "明白了"
    ∷ codes "对"
    ∷ codes "是的"
    ∷ codes "没事"
    ∷ codes "谢谢"
    ∷ codes "哈哈"
    ∷ []

-- The single runes that `looksLikeBackchannel` lists.
abbrev pub backchannel_runes : Text
backchannel_runes = codes "嗯啊哦喔唉欸哎好"

abbrev pub barge_in_takeover_lexicon : List Text
barge_in_takeover_lexicon =
    codes "等一下"
    ∷ codes "等会"
    ∷ codes "等等"
    ∷ codes "停一下"
    ∷ codes "停停"
    ∷ codes "不是"
    ∷ codes "不对"
    ∷ codes "打断一下"
    ∷ codes "先别"
    ∷ codes "先停"
    ∷ codes "重新"
    ∷ codes "改成"
    ∷ codes "换成"
    ∷ []

abbrev pub chinese_question_suffixes : List Text
chinese_question_suffixes =
    codes "吗"
    ∷ codes "呢"
    ∷ codes "么"
    ∷ codes "几"
    ∷ codes "多少"
    ∷ codes "几点"
    ∷ codes "几号"
    ∷ codes "几个"
    ∷ codes "几岁"
    ∷ codes "哪里"
    ∷ codes "哪儿"
    ∷ codes "哪边"
    ∷ codes "为什么"
    ∷ codes "怎么回事"
    ∷ []

abbrev pub chinese_structured_command_prefixes : List Text
chinese_structured_command_prefixes =
    codes "打开"
    ∷ codes "关闭"
    ∷ codes "关掉"
    ∷ codes "启动"
    ∷ codes "停止"
    ∷ codes "暂停"
    ∷ codes "继续"
    ∷ codes "设置"
    ∷ codes "设成"
    ∷ codes "设到"
    ∷ codes "调成"
    ∷ codes "调到"
    ∷ codes "调亮"
    ∷ codes "调暗"
    ∷ codes "切到"
    ∷ codes "切换到"
    ∷ codes "换成"
    ∷ codes "改成"
    ∷ codes "帮我"
    ∷ codes "请帮我"
    ∷ codes "麻烦帮我"
    ∷ codes "把"
    ∷ codes "给"
    ∷ []

abbrev pub english_structured_command_prefixes : List Text
english_structured_command_prefixes =
    codes "turn "
    ∷ codes "switch "
    ∷ codes "set "
    ∷ codes "change "
    ∷ codes "open "
    ∷ codes "close "
    ∷ codes "pause "
    ∷ codes "resume "
    ∷ codes "start "
    ∷ codes "stop "
    ∷ codes "please "
    ∷ []

abbrev pub chinese_structured_query_prefixes : List Text
chinese_structured_query_prefixes =
    codes "查询"
    ∷ codes "查一下"
    ∷ codes "查查"
    ∷ codes "帮我查"
    ∷ codes "帮我看"
    ∷ codes "看看"
    ∷ codes "告诉我"
    ∷ []

abbrev pub english_structured_query_prefixes : List Text
english_structured_query_prefixes =
    codes "check "
    ∷ codes "query "
    ∷ codes "show "
    ∷ codes "tell me "
    ∷ codes "what's "
    ∷ codes "whats "
    ∷ []

abbrev pub english_question_prefixes : List Text
english_question_prefixes =
    codes "what " ∷ codes "when " ∷ codes "where " ∷ codes "why " ∷ codes "how " ∷ []

-- The blanks that the cutsets share.
abbrev pub blanks : Text
blanks = codes " " ++ (0x9 ∷ 0xd ∷ 0xa ∷ [])

-- The cutset of `looksCorrectionPending`.
abbrev pub correction_cutset : Text
correction_cutset = blanks ++ codes ",，。.!?！？;；:：、"

-- The cutset of `looksLikeBackchannel`.
abbrev pub backchannel_cutset : Text
backchannel_cutset = blanks ++ codes ",.!?;:，。！？；：~～"

-- The ends of a sentence, and the runes after which a sentence goes on.
abbrev pub terminal_runes : Text
terminal_runes = codes ".!?。！？"

abbrev pub continuing_runes : Text
continuing_runes = codes ",，、;；:：(（[{<“‘-—…" ++ (b'"' ∷ 0x27 ∷ [])

abbrev pub clause_runes : Text
clause_runes = codes ",，、;；:："

-- The punctuation that `trailingEnglishToken` skips.
abbrev pub token_punctuation : Text
token_punctuation = codes ".,!?;:()[]{}<>`" ++ (b'"' ∷ 0x27 ∷ [])
