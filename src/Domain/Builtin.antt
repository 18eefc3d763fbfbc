-- ===== src/Domain/Builtin.antt =====
-- internal/domain/builtin_rules.go: the table of built-in rules, and the lookups in it. The menu's
-- example texts are left out.
use tg_guard_bot.Common.{
  some, List, [], false, String, Option, none, if◌then◌else◌, str_eq, true, ◌∷◌, ℕ,
}
use tg_guard_bot.Domain.Action.{empty, Action, delete}
use tg_guard_bot.Domain.Settings.{Settings, RuleSetting}

pub record BuiltinRule : Type 0 where
  pub key : String
  pub label : String
  pub score : ℕ
  pub action : Action
  pub pattern_text : String

abbrev rule : String → String → ℕ → Action → String → BuiltinRule
rule k l s a p = record { key = k; label = l; score = s; action = a; pattern_text = p }

unfoldable pub builtin_rules : List BuiltinRule
builtin_rules =
    rule "ad_collection_jobs" "收款码接单招揽" 60 delete
      "(?:收款码|收钱码|收款账户).{0,32}(?:来做|来接|接单|招人|日结|佣金|打钱爽快)|(?:[0-9一二三四五六七八九十]+分钟一单|担保公群).{0,40}(?:收款码|打钱爽快)"
    ∷ rule "ad_launder_income" "洗钱高收入诱导" 60 delete
        "(?:洗钱|跑分).{0,12}(?:一天|日入|日赚).{0,6}[0-9一二三四五六七八九十]+(?:千|万|百).{0,16}(?:担保|联系|来做|进群|包赚)"
    ∷ rule "ad_sports_tips" "足球红单引流" 60 delete
        "(?:足球|篮球|体育).{0,16}(?:红单|推单|推荐单).{0,40}(?:交流群|领红包|加入|入群|@[a-z0-9_]{5,32})"
    ∷ rule "ad_bonus_bot" "红包机器人引流" 60 delete
        "(?:加入|进群|入群|领取|免费领).{0,16}(?:红包|福利|彩金).{0,32}@[a-z0-9_]{2,29}bot"
    ∷ rule "ad_luxury_jobs" "豪车高薪招工" 60 delete
        "(?:来帮我干活|跟我干|跟着我干|招人|招聘|不想上班).{0,64}(?:一个月|一月|月入|月赚).{0,12}(?:包提|喜提|提车|提奥迪|提宝马|提奔驰|[0-9一二三四五六七八九十]+万)"
    ∷ rule "ad_paid_photos" "拍招牌计件招揽" 60 delete
        "(?:拍|收|采集).{0,8}(?:店铺|店面|门店).{0,8}(?:招牌|门头).{0,16}[0-9０-９]+\\s*(?:[0-9oＯ]|元|块|米|u|rmb)?\\s*(?:/|每|一)\\s*张"
    ∷ rule "ad_black_u_jobs" "黑U项目招揽" 60 delete
        "(?:来和我|跟我|一起|招人|招募|带你).{0,20}(?:做|赚|搞|洗|跑).{0,6}(?:黑\\s*u|黑钱|黑币)|(?:黑\\s*u|黑钱|黑币).{0,36}(?:招人|招募|私聊|联系|日结|一天.{0,12}(?:万|达不溜))"
    ∷ rule "url" "外部 URL" 20 empty ""
    ∷ rule "telegram_link" "Telegram 链接" 40 empty ""
    ∷ rule "contact" "联系方式" 25 empty ""
    ∷ rule "mention" "用户名引流" 20 empty ""
    ∷ rule "advertising" "广告招揽" 25 empty ""
    ∷ rule "gambling" "博彩推广" 35 empty ""
    ∷ rule "porn" "色情推广" 35 empty ""
    ∷ rule "crypto" "币圈招揽" 20 empty ""
    ∷ rule "caps" "大量大写" 15 empty ""
    ∷ rule "emoji" "大量表情" 15 empty ""
    ∷ rule "many_links" "大量链接" 25 empty ""
    ∷ rule "ad_profit" "保本暴利承诺" 60 delete "(?:稳赚不赔|稳赚包赔|包赚不赔|保本保收益|guaranteed profits?)"
    ∷ rule "ad_signals" "投资带单招揽" 60 delete
        "(?:(?:带单|喊单|合约导师|内幕股票).{0,48}(?:私聊|加微|入群|联系|收益翻倍|稳赚|日赚)|(?:私聊|加微|入群|联系|收益翻倍|稳赚|日赚).{0,48}(?:带单|喊单|合约导师|内幕股票))"
    ∷ rule "ad_gambling" "博彩开户推广" 60 delete
        "(?:(?:博彩|赌场|百家乐|六合彩|体育投注|时时彩).{0,48}(?:开户|送彩金|首充|充值返利|代理加盟|返点|包赢)|(?:开户|送彩金|首充|充值返利|代理加盟|返点|包赢).{0,48}(?:博彩|赌场|百家乐|六合彩|体育投注|时时彩))"
    ∷ rule "ad_adult" "色情服务招揽" 60 delete
        "(?:(?:裸聊|约炮|成人上门|成人视频|成人直播|同城小姐).{0,48}(?:私聊|联系|加微|预约|付费|包夜|进群|观看|体验)|(?:私聊|联系|加微|预约|付费|包夜|进群|观看|体验).{0,48}(?:裸聊|约炮|成人上门|成人视频|成人直播|同城小姐))"
    ∷ rule "ad_tasks" "刷单返佣任务" 60 delete
        "(?:(?:刷单|刷信誉|做单|垫付|抢单).{0,48}(?:返佣|返现|日结|佣金|先充值|垫资|高薪)|(?:返佣|返现|日结|佣金|先充值|垫资|高薪).{0,48}(?:刷单|刷信誉|做单|垫付|抢单))"
    ∷ rule "ad_loans" "贷款中介广告" 60 delete
        "(?:(?:贷款|借款|网贷|下款).{0,48}(?:无视征信|黑户可做|无需征信|包下款|秒到账|私聊|加微)|(?:无视征信|黑户可做|无需征信|包下款|秒到账|私聊|加微).{0,48}(?:贷款|借款|网贷|下款))"
    ∷ rule "ad_cashout" "信用额度套现" 60 delete
        "(?:(?:花呗|白条|信用卡|信用额度).{0,48}(?:套现|提现秒到|代还提额|额度变现)|(?:套现|提现秒到|代还提额|额度变现).{0,48}(?:花呗|白条|信用卡|信用额度))"
    ∷ rule "ad_otc" "虚拟币买卖招揽" 60 delete
        "(?:(?:收u|出u|换u|买u|卖u|usdt兑换|usdt回收).{0,48}(?:私聊|联系|加微|汇率|量大|秒到|长期)|(?:私聊|联系|加微|汇率|量大|秒到|长期).{0,48}(?:收u|出u|换u|买u|卖u|usdt兑换|usdt回收))"
    ∷ rule "ad_airdrop" "空投钱包诱导" 60 delete
        "(?:(?:空投|airdrop).{0,48}(?:连接钱包|授权钱包|助记词|私钥|connect your wallet|wallet verification)|(?:连接钱包|授权钱包|助记词|私钥|connect your wallet|wallet verification).{0,48}(?:空投|airdrop))"
    ∷ rule "ad_groups" "外部群引流" 60 delete
        "(?:(?:进群|入群|加群|加入频道|福利群).{0,48}(?:t\\.me/|telegram\\.me/|加微|私聊领取|扫码|免费福利)|(?:t\\.me/|telegram\\.me/|加微|私聊领取|扫码|免费福利).{0,48}(?:进群|入群|加群|加入频道|福利群))"
    ∷ rule "ad_bulk" "群发推广服务" 60 delete
        "(?:(?:群发|群推|私信轰炸|精准引流|全网推广).{0,48}(?:接单|代发|价格|报价|联系|私聊|日发|万条)|(?:接单|代发|价格|报价|联系|私聊|日发|万条).{0,48}(?:群发|群推|私信轰炸|精准引流|全网推广))"
    ∷ rule "ad_accounts" "社交账号买卖" 60 delete
        "(?:(?:tg号|telegram账号|微信号|推特号|discord账号|脸书号|facebook账号).{0,48}(?:出售|批发|现货|收购|购买|低价)|(?:出售|批发|现货|收购|购买|低价).{0,48}(?:tg号|telegram账号|微信号|推特号|discord账号|脸书号|facebook账号))"
    ∷ rule "ad_sms" "接码养号服务" 60 delete
        "(?:(?:接码|养号|实名号|解封服务).{0,48}(?:平台出售|批发|现货|价格|私聊|联系|代办)|(?:平台出售|批发|现货|价格|私聊|联系|代办).{0,48}(?:接码|养号|实名号|解封服务))"
    ∷ rule "ad_documents" "证件文凭代办" 60 delete
        "(?:(?:身份证|驾驶证|毕业证|学历证|学位证).{0,48}(?:办假证|高仿|代办包过|无需考试|保真可查|私聊办理)|(?:办假证|高仿|代办包过|无需考试|保真可查|私聊办理).{0,48}(?:身份证|驾驶证|毕业证|学历证|学位证))"
    ∷ rule "ad_invoices" "发票代开广告" 60 delete
        "(?:(?:代开发票|发票代开|代开增值税).{0,48}(?:联系|私聊|点位|税点|保真|全国|加微)|(?:联系|私聊|点位|税点|保真|全国|加微).{0,48}(?:代开发票|发票代开|代开增值税))"
    ∷ rule "ad_data" "个人资料交易" 60 delete
        "(?:(?:个人信息|客户资料|手机号码库|精准客户数据|公民信息).{0,48}(?:出售|售卖|批发|一手资源|私聊交易)|(?:出售|售卖|批发|一手资源|私聊交易).{0,48}(?:个人信息|客户资料|手机号码库|精准客户数据|公民信息))"
    ∷ rule "ad_followers" "刷粉刷量服务" 60 delete
        "(?:(?:刷粉|买粉|刷播放|刷赞|刷评论|机器人粉丝).{0,48}(?:接单|报价|价格|私聊|联系|千粉|万粉)|(?:接单|报价|价格|私聊|联系|千粉|万粉).{0,48}(?:刷粉|买粉|刷播放|刷赞|刷评论|机器人粉丝))"
    ∷ rule "ad_proxy" "代理节点销售" 60 delete
        "(?:(?:机场节点|vpn节点|专线节点|翻墙套餐).{0,48}(?:限时特价|优惠码|购买链接|月付[0-9]+|私聊购买)|(?:限时特价|优惠码|购买链接|月付[0-9]+|私聊购买).{0,48}(?:机场节点|vpn节点|专线节点|翻墙套餐))"
    ∷ rule "ad_crack" "破解软件销售" 60 delete
        "(?:(?:破解版|破解软件|盗版软件|永久激活).{0,48}(?:出售|低价购买|私聊购买|批发|代激活)|(?:出售|低价购买|私聊购买|批发|代激活).{0,48}(?:破解版|破解软件|盗版软件|永久激活))"
    ∷ rule "ad_shopping" "购物返利推广" 60 delete
        "(?:(?:内部优惠券|购物返利|淘宝返佣|拼多多助力).{0,48}(?:加群|加微|私聊|扫码领取|推广链接)|(?:加群|加微|私聊|扫码领取|推广链接).{0,48}(?:内部优惠券|购物返利|淘宝返佣|拼多多助力))"
    ∷ rule "ad_jobs" "高薪招募诱导" 60 delete
        "(?:(?:兼职|招聘|招募).{0,48}(?:零门槛日赚|无门槛日赚|躺赚|日入[0-9]{3,}|先交押金|先交保证金)|(?:零门槛日赚|无门槛日赚|躺赚|日入[0-9]{3,}|先交押金|先交保证金).{0,48}(?:兼职|招聘|招募))"
    ∷ rule "ad_english_invest" "英文投资诈骗招揽" 60 delete
        "(?:(?:crypto investment|forex signals|investment plan).{0,48}(?:guaranteed|double your|daily returns|dm me|contact me)|(?:guaranteed|double your|daily returns|dm me|contact me).{0,48}(?:crypto investment|forex signals|investment plan))"
    ∷ rule "ad_english_giveaway" "英文赠币诱导" 60 delete
        "(?:(?:send (?:btc|eth|usdt)|send your crypto).{0,48}(?:get double|double back|receive twice|giveaway)|(?:get double|double back|receive twice|giveaway).{0,48}(?:send (?:btc|eth|usdt)|send your crypto))"
    ∷ rule "ad_laundering" "跑分洗钱招募" 60 delete
        "(?:(?:跑分|洗钱|银行卡四件套|代收代付).{0,48}(?:招募|招人|佣金|日结|出租|收购|私聊)|(?:招募|招人|佣金|日结|出租|收购|私聊).{0,48}(?:跑分|洗钱|银行卡四件套|代收代付))"
    ∷ rule "ad_recharge" "低价代充广告" 60 delete
        "(?:(?:话费代充|点卡代充|会员代充|游戏代充|代充会员).{0,48}(?:低价|折扣|联系|私聊|接单|批发)|(?:低价|折扣|联系|私聊|接单|批发).{0,48}(?:话费代充|点卡代充|会员代充|游戏代充|代充会员))"
    ∷ []

-- The loop of `FindBuiltinRule`.
unfoldable pub find_rule : String → List BuiltinRule → Option BuiltinRule
find_rule k [] = none
find_rule k (r ∷ rs) = if str_eq r.key k then some r else find_rule k rs

unfoldable pub find_builtin_rule : String → Option BuiltinRule
unfolding find_rule
find_builtin_rule k = find_rule k builtin_rules

unfoldable pub effective_rule : Settings → String → RuleSetting
effective_rule s k = elim (s.rules k) [
  | some r ↦ r
  | none ↦ elim (find_builtin_rule k) [
    | some r ↦ record { action = r.action; enabled = true; score = r.score }
    | none ↦ record { action = empty; enabled = false; score = 0 }
  ]
]
